-- ===== src/Json.antt =====
-- JSON documents, as `encoding/json` reads and writes them; a number is its text. An object is a list of
-- entries, as a Go map is.
use hermes_agent_operator.Prelude.{String, Bool, Option, none, some, str_eq, if◌then◌else◌}

mutual
  pub data Json : Type 0 where
    null : Json
    bool : Bool → Json
    number string : String → Json
    array : JsonList → Json
    object : JsonObject → Json

  pub data JsonList : Type 0 where
    end : JsonList
    item : Json → JsonList → JsonList

  pub data JsonObject : Type 0 where
    empty : JsonObject
    entry : String → Json → JsonObject → JsonObject

abbrev pub member : JsonObject → String → Option Json
member empty k = none
member (entry j v m) k = let rest = member m k in if str_eq j k then some v else rest

abbrev pub set_member : JsonObject → String → Json → JsonObject
set_member empty k v = entry k v empty
set_member (entry j w m) k v =
    let rest = set_member m k v in if str_eq j k then entry k v m else entry j w rest

-- `v, _ := x.(map[string]any)`, nil read as the empty map.
abbrev pub object_or_empty : Option Json → JsonObject
object_or_empty (some (object m)) = m
object_or_empty _ = empty

-- A document read into `any` and written again: each number as the text that `float` gives for it.
unfoldable mutual
  pub rounded : (String → String) → Json → Json
  rounded float null = null
  rounded float (bool b) = bool b
  rounded float (number n) = number (float n)
  rounded float (string s) = string s
  rounded float (array l) = array (rounded_list float l)
  rounded float (object m) = object (rounded_object float m)

  pub rounded_list : (String → String) → JsonList → JsonList
  rounded_list float end = end
  rounded_list float (item x l) = item (rounded float x) (rounded_list float l)

  pub rounded_object : (String → String) → JsonObject → JsonObject
  rounded_object float empty = empty
  rounded_object float (entry k x m) = entry k (rounded float x) (rounded_object float m)
