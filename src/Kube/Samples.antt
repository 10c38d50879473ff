-- ===== src/Kube/Samples.antt =====
-- A concrete cluster and agents, for the examples.
use hermes_agent_operator.Prelude.{
  ℕ, ◌+◌, String, Bool, true, false, Option, none, some, [], ◌∷◌, sym, get_or, lookup,
}
use hermes_agent_operator.Objects.{
  ObjectMeta, Secret, StatefulSet, PersistentVolumeClaim, claim_bound,
}
use hermes_agent_operator.Json.{object, empty}
use hermes_agent_operator.Api.Hermes.{Hermes, HermesStorage, HermesProfile}
use hermes_agent_operator.Api.Agent.{HermesAgent, SearxNg, Camofox, pending}
use hermes_agent_operator.Kube.Client.{
  ok_injective, Error, not_found, no_match, Result, ok, err, Kind, Object, secret, stateful_set,
  persistent_volume_claim, volume_snapshot, volume_snapshot_list, VolumeSnapshot, Platform, quoted,
}
use hermes_agent_operator.Kube.Exec.{State, Handler, done}
use hermes_agent_operator.Kube.Writes.{OnlyOwns}

abbrev pub no_object : Error
no_object = record { cause = not_found; text = "not found" }

abbrev pub no_kind : Error
no_kind = record { cause = no_match; text = "no matches for kind" }

abbrev pub meta_of : String → ObjectMeta
meta_of name = record {
  name = name;
  namespace = "ns";
  labels = [];
  annotations = [];
  resource_version = "1";
  creation_timestamp = 100;
  deletion_timestamp = none;
}

abbrev pub sample_secret : Secret
sample_secret = record {
  meta = meta_of "sample";
  contents = ("API_SERVER_KEY", "abc") ∷ ("tls.crt", "PEM") ∷ ("tls.key", "KEY") ∷ [];
}

abbrev pub sample_claim : PersistentVolumeClaim
sample_claim = record {
  meta = meta_of "snap-1-restore";
  storage = "10Gi";
  storage_class_name = none;
  data_source = none;
  phase = claim_bound;
}

abbrev pub claim_template : String → PersistentVolumeClaim
claim_template name = record sample_claim { meta = meta_of name }

abbrev pub sample_set : StatefulSet
sample_set = record {
  meta = meta_of "hermes";
  replicas = 1;
  selector = [];
  max_unavailable = 1;
  template = record {
    labels = [];
    annotations = [];
    spec = record {
      init_containers = [];
      containers = [];
      volumes = [];
      host_users = none;
      priority_class_name = "";
      runtime_class_name = none;
      seccomp_profile = "RuntimeDefault";
      service_account_name = "";
    };
  };
  volume_claim_templates = claim_template "hermes-data" ∷ [];
}

abbrev pub sample_snapshot : String → ℕ → VolumeSnapshot
sample_snapshot name created =
    let meta = meta_of name in
    record {
      meta = record meta { creation_timestamp = created };
      spec = record {
        source = record { persistent_volume_claim_name = "hermes-data-hermes-0" };
        volume_snapshot_class_name = none;
      };
      status = some (record { ready_to_use = some true; restore_size = some "20Gi" });
    }

-- What the cluster shows, of each kind, at any name.
abbrev pub everything : (k : Kind) → Result (Object k)
everything secret = ok sample_secret
everything stateful_set = ok sample_set
everything persistent_volume_claim = ok sample_claim
everything volume_snapshot = ok (sample_snapshot "snap-1" 100)
everything _ = err no_object

abbrev pub all_but_claims : (k : Kind) → Result (Object k)
all_but_claims secret = ok sample_secret
all_but_claims stateful_set = ok sample_set
all_but_claims volume_snapshot = ok (sample_snapshot "snap-1" 100)
all_but_claims _ = err no_object

abbrev deletion : Kind → Result (Unit {0})
deletion volume_snapshot_list = err no_kind
deletion _ = ok tt

-- Every certificate is that of an authority.
abbrev pub cluster : ((k : Kind) → Result (Object k)) → Platform (Unit {0})
cluster shown = record {
  client_get = λ k n w. (shown k, w);
  client_get_agent = λ n w. (err no_object, w);
  client_list = λ n l w. (ok (sample_snapshot "snap-1" 100 ∷ []), w);
  client_create = λ k o w. (ok tt, w);
  client_update = λ k o w. (ok tt, w);
  client_delete = λ k n w. (deletion k, w);
  client_update_status = λ ha st w. (ok st, w);
  set_controller_reference = λ k ha o. ok o;
  set_status_condition = λ cs c. (c ∷ cs, true);
  remove_status_condition = λ cs t. (cs, false);
  parse_standard = λ text. ok (λ t. t + 60);
  now = λ w. (1000, w);
  format_timestamp = λ t. "19700101000000";
  rand_hex = λ n w. (ok "00", w);
  pem_decode = λ text. some text;
  parse_certificate = λ block. ok (record { is_ca = true; key_usage = 0; cert_sign = false });
  generate_ca = λ w. (ok ("CERT", "KEY"), w);
  marshal_proxy = λ config. ok "proxy: {}";
  yaml_to_json = λ text. ok (object empty);
  json_to_yaml = λ document. ok "{}";
  as_float64 = λ n. n;
  go_quote = quoted;
  sha256_hex = λ text. text;
  marshal_spec = λ sts. get_or (lookup sts.template.annotations "hermeum.app/config-hash") "";
}

pub cluster-OnlyOwns : (shown : (k : Kind) → Result (Object k)) → OnlyOwns (cluster shown)
cluster-OnlyOwns shown k ha o o' e = sym (ok_injective e)

abbrev pub start : State (Unit {0})
start = record {
  status = record {
    phase = pending;
    reason = "";
    conditions = [];
    managed_resources = record {
      hermes_config_map = "";
      hermes_secret = "";
      searxng_config_map = "";
      searxng_secret = "";
      service_account = "";
      role = "";
      role_binding = "";
      service = "";
      ingress = "";
      network_policy = "";
      egress_secret = "";
      egress_ca_secret = "";
      stateful_set = "";
    };
    snapshot = record { last_schedule_time = none; snapshots = [] };
  };
  world = tt;
  log = [];
}

abbrev pub storage : Option String → HermesStorage
storage source = record {
  persistence = some (record {
    enabled = true;
    size = none;
    storage_class_name = none;
    existing_claim = none;
    existing_snapshot = source;
  });
  snapshot = some (record {
    enabled = true;
    schedule = "* * * * *";
    retention = some 1;
    volume_snapshot_class_name = none;
  });
}

abbrev pub bare_hermes : Hermes
bare_hermes = record {
  image = none;
  config = none;
  storage = none;
  workspace = none;
  packages = none;
  plugins = [];
  skills = [];
  crons = [];
  bundles = [];
  env = [];
  env_from = [];
  resources = none;
  probes = none;
  ports = [];
  init_chown_data = false;
  init_scripts = [];
  profiles = [];
}

abbrev pub bare_profile : HermesProfile
bare_profile = record {
  clone = false;
  distribution = none;
  config = none;
  workspace = none;
  plugins = [];
  skills = [];
  crons = [];
  bundles = [];
}

abbrev pub bare_searxng : SearxNg
bare_searxng = record {
  enabled = true;
  image = none;
  resources = none;
  config_files = [];
  persistence = none;
  env = [];
}

abbrev pub bare_camofox : Camofox
bare_camofox = record {
  enabled = true;
  image = none;
  resources = none;
  persistence = record {
    enabled = true;
    size = none;
    storage_class_name = none;
    existing_claim = none;
  };
  env = [];
}

-- With the API server on and the webhook off, an egress proxy, and perhaps a snapshot to restore.
abbrev pub sample_agent : Option Bool → Option String → HermesAgent
sample_agent suspend source = record {
  name = "hermes";
  namespace = "ns";
  generation = 1;
  creation_timestamp = 10;
  spec = record {
    suspend = suspend;
    hermes = some (record bare_hermes {
      config = some (record {
        raw = none;
        config_map_ref = none;
        api_server = some (record { enabled = true; port = none; cors_origins = [] });
        webhook = none;
      });
      storage = some (storage source);
    });
    security = none;
    networking = none;
    searxng = none;
    camofox = none;
    egress = some (record {
      enabled = true;
      image = "";
      resources = none;
      env = [];
      credentials = none;
      ca = none;
      config = none;
    });
    init_containers = [];
    sidecars = [];
    extra_volumes = [];
    extra_volume_mounts = [];
    host_users = none;
    pod_annotations = [];
    pod_labels = [];
    priority_class_name = "";
    runtime_class_name = none;
  };
}

abbrev pub quiet : HermesAgent → Handler (Unit {0})
quiet ha s = (done, s)
