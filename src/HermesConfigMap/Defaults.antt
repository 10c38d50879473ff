-- ===== src/HermesConfigMap/Defaults.antt =====
-- The defaults that are put into the agent's configuration (the apply… functions of
-- internal/usecase/hermesagent_hermes_configmap.go).
use hermes_agent_operator.Prelude.{String, true, is_some, if◌then◌else◌}
use hermes_agent_operator.Json.{
  Json, null, bool, string, object, JsonObject, empty, member, set_member, object_or_empty,
  rounded_object,
}
use hermes_agent_operator.Kube.Client.{Result, ok, err, on_ok, errorf}

-- `json.Unmarshal(raw, &cfg)` into a map; null leaves it empty. The numbers in it are read as float64,
-- and `float` gives the text that `json.Marshal` writes for them afterwards.
abbrev pub unmarshal_map : (String → String) → Json → Result JsonObject
unmarshal_map float (object m) = ok (rounded_object float m)
unmarshal_map float null = ok empty
unmarshal_map float _ =
    err (errorf "unmarshaling config: json: cannot unmarshal value into Go value of type map")

abbrev pub put_if_absent : JsonObject → String → Json → JsonObject
put_if_absent m k v = if is_some (member m k) then m else set_member m k v

-- The section, which is created where it is missing or no object, with the default in it.
abbrev pub with_default : JsonObject → String → String → Json → JsonObject
with_default cfg section k v =
    set_member cfg section (object (put_if_absent (object_or_empty (member cfg section)) k v))

unfoldable pub apply_searxng_config_defaults : (String → String) → Json → Result Json
apply_searxng_config_defaults float raw =
    on_ok (unmarshal_map float raw)
      λ cfg. ok (object (with_default cfg "web" "search_backend" (string "searxng")))

unfoldable pub apply_multiplex_profiles_default : (String → String) → Json → Result Json
apply_multiplex_profiles_default float raw =
    on_ok (unmarshal_map float raw)
      λ cfg. ok (object (with_default cfg "gateway" "multiplex_profiles" (bool true)))

-- One level deeper.
abbrev pub with_camofox : JsonObject → JsonObject
with_camofox cfg =
    let browser = object_or_empty (member cfg "browser") in
    set_member cfg "browser"
      (object (with_default browser "camofox" "managed_persistence" (bool true)))

unfoldable pub apply_camofox_config_defaults : (String → String) → Json → Result Json
apply_camofox_config_defaults float raw =
    on_ok (unmarshal_map float raw) λ cfg. ok (object (with_camofox cfg))
