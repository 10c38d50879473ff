-- ===== src/Api/Images.antt =====
-- The container images of the spec (resolveImage and its neighbours,
-- api/v1alpha1/hermesagent_hermes.go; the GetImage accessors). An override is its parsed JSON.
use Prim.Native.Char.{code}
use hermes_agent_operator.Prelude.{
  ℕ, String, ◌⧺◌, ◌==◌, Bool, true, false, Option, none, some, ◌&&◌, ◌||◌, leb, str_eq, is_empty,
  and_then, if_some, if◌then◌else◌,
}
use hermes_agent_operator.Json.{Json, null, string, object, JsonObject, empty, entry}
use hermes_agent_operator.Api.Hermes.{Hermes}
use hermes_agent_operator.Api.Egress.{Egress}
use hermes_agent_operator.Api.Agent.{HermesAgent, SearxNg, Camofox}
use hermes_agent_operator.Egress.Mint.{to_lower}

abbrev pub default_hermes_image_repo : String
default_hermes_image_repo = "nousresearch/hermes-agent"

abbrev pub default_searxng_image_repo : String
default_searxng_image_repo = "searxng/searxng"

abbrev pub default_camofox_image_repo : String
default_camofox_image_repo = "ghcr.io/jo-inc/camofox-browser"

abbrev pub default_egress_image : String
default_egress_image = "docker.io/ironsh/iron-proxy:0.49.0"

abbrev pub is_space : ℕ → Bool
is_space n = n == b' ' || (leb 9 n && leb n 13)

abbrev pub trim_left : String → String
trim_left String.[] = ""
trim_left (String.◌∷◌ c s) =
    let rest = trim_left s in if is_space (code c) then rest else String.◌∷◌ c s

abbrev pub trim_right : String → String
trim_right String.[] = ""
trim_right (String.◌∷◌ c s) =
    let rest = trim_right s in if is_empty rest && is_space (code c) then "" else String.◌∷◌ c rest

-- `strings.TrimSpace`, for ASCII.
abbrev pub trim_space : String → String
trim_space s = trim_left (trim_right s)

pub record LegacyImageShape : Type 0 where
  pub repository : String
  pub tag : String

abbrev pub legacy_field : LegacyImageShape → String → Json → Option LegacyImageShape
legacy_field shape k (string v) =
    if str_eq k "repository"
    then some (record shape { repository = v })
    else if str_eq k "tag"
    then some (record shape { tag = v })
    else some shape
legacy_field shape k null = some shape
legacy_field shape k _ = if str_eq k "repository" || str_eq k "tag" then none else some shape

-- `json.Unmarshal` into the shape: the keys in any case, none where a value is no text.
abbrev pub legacy_fields : LegacyImageShape → JsonObject → Option LegacyImageShape
legacy_fields shape empty = some shape
legacy_fields shape (entry k v fields) =
    and_then (legacy_field shape (to_lower k) v) (λ shape'. legacy_fields shape' fields)

abbrev pub or_repo : String → String → String
or_repo v default = if is_empty v then default else v

abbrev pub legacy_reference : String → LegacyImageShape → String
legacy_reference repo shape = or_repo shape.repository repo ⧺ (":" ⧺ or_repo shape.tag "latest")

unfoldable pub resolve_image : Option Json → String → String
resolve_image none repo = repo ⧺ ":latest"
resolve_image (some (string ref)) repo =
    if is_empty (trim_space ref) then repo ⧺ ":latest" else trim_space ref
resolve_image (some (object fields)) repo =
    if_some (legacy_fields (record { repository = ""; tag = "" }) fields)
      (λ shape. legacy_reference repo shape) (repo ⧺ ":latest")
resolve_image (some _) repo = repo ⧺ ":latest"

-- Whether the override decodes as an object; null does, as an empty one.
abbrev pub uses_legacy_image_form : Option Json → Bool
uses_legacy_image_form none = false
uses_legacy_image_form (some (object fields)) = true
uses_legacy_image_form (some null) = true
uses_legacy_image_form (some _) = false

unfoldable pub agent_uses_legacy_image_form : HermesAgent → Bool
agent_uses_legacy_image_form ha =
    uses_legacy_image_form (and_then ha.spec.hermes (λ h. h.image))
    || (uses_legacy_image_form (and_then ha.spec.searxng (λ s. s.image))
        || uses_legacy_image_form (and_then ha.spec.camofox (λ c. c.image)))

abbrev pub hermes_image : Option Hermes → String
hermes_image h = resolve_image (and_then h (λ x. x.image)) default_hermes_image_repo

abbrev pub searxng_image : SearxNg → String
searxng_image s = resolve_image s.image default_searxng_image_repo

abbrev pub camofox_image : Camofox → String
camofox_image c = resolve_image c.image default_camofox_image_repo

abbrev pub egress_image : Egress → String
egress_image e = if is_empty (trim_space e.image) then default_egress_image else trim_space e.image
