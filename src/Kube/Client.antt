-- ===== src/Kube/Client.antt =====
-- What the operator calls and does not implement: controller-runtime's client, the helpers of
-- apimachinery, the cron parser, the clock, the random source and the certificate code. They are the
-- fields of `Platform`, over an abstract world `W`: the cluster, and all that acts on it. Nothing is
-- assumed of them here; a theorem that relies on what one of them documents names it as a hypothesis.
use hermes_agent_operator.Prelude.{◌≡◌, refl, ℕ, String, ◌⧺◌, Bool, Option, List, StringMap}
use hermes_agent_operator.Objects.{
  NsName, ObjectMeta, Condition, Secret, ConfigMap, Pod, StatefulSet, PersistentVolumeClaim,
  ServiceAccount, Role, RoleBinding, Service, Ingress, NetworkPolicy,
}
use hermes_agent_operator.Api.Agent.{HermesAgent, HermesAgentStatus}
use hermes_agent_operator.Json.{Json}
use hermes_agent_operator.IronProxy.{IronProxyConfig}

-- What the tests on an error (`IsNotFound`, `IsAlreadyExists`, `IsNoMatchError`, `errors.Is`) tell.
pub data Cause : Type 0 where
  not_found already_exists no_match inputs_pending other : Cause

-- A Go `error` that is not nil: what those tests find in its chain, and its message.
pub record Error : Type 0 where
  pub cause : Cause
  pub text : String

pub data Result {ℓ} (A : Type ℓ) : Type ℓ where
  ok : A → Result A
  err : Error → Result A

-- `if err != nil { return err }` between two pure steps.
abbrev pub on_ok {ℓ κ} : {A : Type ℓ} {B : Type κ} → Result A → (A → Result B) → Result B
on_ok (ok a) f = f a
on_ok (err e) f = err e

pub ok_injective : {A : Type 0} {a b : A} → ok a ≡ ok b → a ≡ b
ok_injective h = cc

pub on_ok_ok :
    {A B : Type 0} (m : Result A) (f : A → Result B) {b : B}
    → on_ok m f ≡ ok b
    → (a : A) × (m ≡ ok a) × (f a ≡ ok b)
on_ok_ok (ok a) f h = (a, refl, h)
on_ok_ok (err e) f h = cc

-- `fmt.Errorf` with no `%w`.
abbrev pub errorf : String → Error
errorf text = record { cause = other; text = text }

-- `fmt.Errorf("…: %w", e)` keeps what `errors.As` and `errors.Is` find.
abbrev pub wrap : String → Error → Error
wrap prefix e = record { cause = e.cause; text = prefix ⧺ ": " ⧺ e.text }

-- `%q`, of names, which have no character that it escapes.
abbrev pub quoted : String → String
quoted s = "\"" ⧺ s ⧺ "\""

pub record VolumeSnapshotStatus : Type 0 where
  pub ready_to_use : Option Bool
  pub restore_size : Option String

pub record VolumeSnapshotSource : Type 0 where
  pub persistent_volume_claim_name : String

pub record VolumeSnapshotSpec : Type 0 where
  pub source : VolumeSnapshotSource
  pub volume_snapshot_class_name : Option String

pub record VolumeSnapshot : Type 0 where
  pub meta : ObjectMeta
  pub spec : VolumeSnapshotSpec
  pub status : Option VolumeSnapshotStatus

-- The kinds that a request names. `volume_snapshot_list` is the kind VolumeSnapshotList, which one
-- request of the operator names although it is about one object.
pub data Kind : Type 0 where
  pod config_map secret stateful_set service_account role role_binding service ingress : Kind
  network_policy persistent_volume_claim volume_snapshot volume_snapshot_list : Kind

abbrev pub Object : Kind → Type 0
Object pod = Pod
Object config_map = ConfigMap
Object secret = Secret
Object stateful_set = StatefulSet
Object service_account = ServiceAccount
Object role = Role
Object role_binding = RoleBinding
Object service = Service
Object ingress = Ingress
Object network_policy = NetworkPolicy
Object persistent_volume_claim = PersistentVolumeClaim
Object volume_snapshot = VolumeSnapshot
Object volume_snapshot_list = List VolumeSnapshot

-- `x509.Certificate`: the two fields that are read. `cert_sign` is the bit KeyUsageCertSign.
pub record Certificate : Type 0 where
  pub is_ca : Bool
  pub key_usage : ℕ
  pub cert_sign : Bool

pub record Platform (W : Type 0) : Type 0 where
  -- client.Client; an unstructured VolumeSnapshot is converted to the typed one
  pub client_get : (k : Kind) → NsName → W → Result (Object k) × W
  pub client_get_agent : NsName → W → Result (HermesAgent × HermesAgentStatus) × W
  pub client_list : String → StringMap String → W → Result (List VolumeSnapshot) × W
  pub client_create : (k : Kind) → Object k → W → Result (Unit {0}) × W
  pub client_update : (k : Kind) → Object k → W → Result (Unit {0}) × W
  pub client_delete : Kind → NsName → W → Result (Unit {0}) × W
  -- Status().Update, with the status of the server's answer
  pub client_update_status : HermesAgent → HermesAgentStatus → W → Result HermesAgentStatus × W
  -- ctrl.SetControllerReference
  pub set_controller_reference : (k : Kind) → HermesAgent → Object k → Result (Object k)
  -- meta.SetStatusCondition, meta.RemoveStatusCondition
  pub set_status_condition : List Condition → Condition → List Condition × Bool
  pub remove_status_condition : List Condition → String → List Condition × Bool
  -- cron.ParseStandard; a schedule is its method Next
  pub parse_standard : String → Result (ℕ → ℕ)
  -- time.Now; Format(snapshotTimestampFormat) in UTC; crypto/rand.Read, as lower-case hexadecimal
  pub now : W → ℕ × W
  pub format_timestamp : ℕ → String
  pub rand_hex : ℕ → W → Result String × W
  -- encoding/pem, crypto/x509, crypto/ecdsa: decode, parse, and make a CA's certificate and key
  pub pem_decode : String → Option String
  pub parse_certificate : String → Result Certificate
  pub generate_ca : W → Result (String × String) × W
  -- yaml.Marshal
  pub marshal_proxy : IronProxyConfig → Result String
  -- crypto/sha256, as lower-case hexadecimal; json.Marshal of a StatefulSet's replicas, template and claim
  -- templates
  pub sha256_hex : String → String
  pub marshal_spec : StatefulSet → String
  -- fmt's verb %q
  pub go_quote : String → String
  -- sigs.k8s.io/yaml: YAMLToJSON and JSONToYAML
  pub yaml_to_json : String → Result Json
  pub json_to_yaml : Json → Result String
  -- encoding/json: the text of the float64 that a number in an `any` is read as, for one in its range
  pub as_float64 : String → String
