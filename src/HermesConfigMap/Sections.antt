-- ===== src/HermesConfigMap/Sections.antt =====
-- Documents by paths of keys, and the settings in a section of a document
-- (internal/usecase/hermesagent_hermes_configmap.go).
use hermes_agent_operator.Prelude.{
  String, Bool, true, false, Option, none, some, List, [], ◌∷◌, ◌≡◌, ◌≢◌, refl, sym, ap, arith,
  eq_iff, str_eq, is_some, and_then, if◌then◌else◌, Bool-cases, inl, inr, subst,
}
use hermes_agent_operator.Json.{
  Json, null, bool, number, string, array, object, JsonList, end, item, JsonObject, empty, entry,
  member, set_member, object_or_empty, rounded, rounded_list, rounded_object,
}
use hermes_agent_operator.HermesConfigMap.Defaults.{put_if_absent}

-- The value at a path of keys, the outermost first.
abbrev pub at_path : List String → Json → Option Json
at_path [] x = some x
at_path (k ∷ ks) x = and_then (member (object_or_empty (some x)) k) (at_path ks)

not_there : ◌≡◌ {A = Bool} false true → ⊥
not_there h = cc

member-set_member :
    (m : JsonObject) (k j : String) (v : Json)
    → member (set_member m k v) j ≡ (if str_eq k j then some v else member m j)
member-set_member empty k j v = refl
member-set_member (entry i w m) k j v =
    ground (arith, eq_iff k j, eq_iff i k, eq_iff i j, member-set_member m k j v)

-- A change of an object keeps what is at each of these paths.
pub record Keeps (P : List String → Type 0) (f : JsonObject → JsonObject) : Type 0 where
  pub at :
      (m : JsonObject) (ks : List String) (v : Json)
      → P ks
      → at_path ks (object m) ≡ some v
      → at_path ks (object (f m)) ≡ some v

set_member-other :
    (m : JsonObject) (k j : String) (d : Json) (ks : List String) (v : Json)
    → str_eq k j ≡ false
    → at_path (j ∷ ks) (object m) ≡ some v
    → at_path (j ∷ ks) (object (set_member m k d)) ≡ some v
set_member-other m k j d ks v differs h = rw (member-set_member m k j d) (rw differs h)

absent :
    (o : Option Json) (f : Json → Option Json) (v : Json)
    → is_some o ≡ false
    → and_then o f ≢ some v
absent none f v e h = cc
absent (some x) f v e h = ground arith

at_path-put_if_absent :
    (k : String) (d : Json) (m : JsonObject) (ks : List String) (v : Json)
    → ks ≢ []
    → at_path ks (object m) ≡ some v
    → at_path ks (object (put_if_absent m k d)) ≡ some v
at_path-put_if_absent k d m [] v there h = absurd (there refl)
at_path-put_if_absent k d m (j ∷ ks) v there h = elim (Bool-cases (is_some (member m k))) [
  | inl e ↦ rw e h
  | inr e ↦ elim (Bool-cases (str_eq k j)) [
    | inl same ↦ absurd (
        absent (member m j) (at_path ks) v
          (subst (λ (x : String). is_some (member m x) ≡ false) ((eq_iff k j).0 same) e) h)
    | inr differs ↦ rw e (set_member-other m k j d ks v differs h)
  ]
]

pub Keeps-put_if_absent : (k : String) (d : Json) → Keeps (λ ks. ks ≢ []) (λ m. put_if_absent m k d)
Keeps-put_if_absent k d = record { at = at_path-put_if_absent k d }

-- A change of a section of an object, which is created where it is missing or no object.
abbrev pub in_section : String → (JsonObject → JsonObject) → JsonObject → JsonObject
in_section k f m = set_member m k (object (f (object_or_empty (member m k))))

-- The paths that lead elsewhere, or into a section where the change of it keeps what is there.
pub record IsBeside (k : String) (P : List String → Type 0) (ks : List String) : Type 0 where
  pub not_root : ks ≢ []
  pub not_section : ks ≢ k ∷ []
  pub inside : (js : List String) → ks ≡ k ∷ js → P js

into :
    (o : Option Json) (i : String) (is : List String) (v : Json)
    → and_then o (at_path (i ∷ is)) ≡ some v
    → at_path (i ∷ is) (object (object_or_empty o)) ≡ some v
into none i is v h = cc
into (some x) i is v h = h

at_path-in_section :
    (k : String) (f : JsonObject → JsonObject) (P : List String → Type 0)
    → Keeps P f
    → (m : JsonObject) (ks : List String) (v : Json) → IsBeside k P ks
    → at_path ks (object m) ≡ some v
    → at_path ks (object (in_section k f m)) ≡ some v
at_path-in_section k f P keeps m [] v b h = absurd (b.not_root refl)
at_path-in_section k f P keeps m (j ∷ []) v b h = elim (Bool-cases (str_eq k j)) [
  | inl same ↦ absurd (b.not_section (ap (λ (x : String). x ∷ []) (sym ((eq_iff k j).0 same))))
  | inr differs ↦ set_member-other m k j _ [] v differs h
]
at_path-in_section k f P keeps m (j ∷ (i ∷ is)) v b h = elim (Bool-cases (str_eq k j)) [
  | inl same ↦
      let e = (eq_iff k j).0 same in
      rw (member-set_member m k j (object (f (object_or_empty (member m k))))) (
        rw same (
          keeps.at (object_or_empty (member m k)) (i ∷ is) v
            (b.inside (i ∷ is) (ap (λ (x : String). x ∷ (i ∷ is)) (sym e)))
            (into (member m k) i is v (
              subst (λ (x : String). and_then (member m x) (at_path (i ∷ is)) ≡ some v) (sym e)
                h))))
  | inr differs ↦ set_member-other m k j _ (i ∷ is) v differs h
]

pub Keeps-in_section :
    (k : String) (f : JsonObject → JsonObject) (P : List String → Type 0)
    → Keeps P f
    → Keeps (IsBeside k P) (in_section k f)
Keeps-in_section k f P keeps = record { at = at_path-in_section k f P keeps }

through :
    (ks : List String) (o : Option Json) (v : Json)
    → and_then o (at_path ks) ≡ some v
    → (w : Json) × (o ≡ some w) × (at_path ks w ≡ some v)
through ks none v h = cc
through ks (some w) v h = (w, refl, h)

module _ (float : String → String) where
  member-rounded :
      (m : JsonObject) (k : String) (v : Json)
      → member m k ≡ some v
      → member (rounded_object float m) k ≡ some (rounded float v)
  unfolding rounded
  member-rounded empty k v h = cc
  member-rounded (entry j w m) k v h = ground (arith, member-rounded m k v)

  members_rounded :
      (x : Json) (k : String) (v : Json)
      → member (object_or_empty (some x)) k ≡ some v
      → member (object_or_empty (some (rounded float x))) k ≡ some (rounded float v)
  unfolding rounded
  members_rounded null k v h = cc
  members_rounded (bool b) k v h = cc
  members_rounded (number n) k v h = cc
  members_rounded (string s) k v h = cc
  members_rounded (array l) k v h = cc
  members_rounded (object m) k v h = member-rounded m k v h

  -- What is at a path of a document is there, read and written again, once the document is.
  pub at_path-rounded :
      (ks : List String) (x v : Json)
      → at_path ks x ≡ some v
      → at_path ks (rounded float x) ≡ some (rounded float v)
  at_path-rounded [] x v h = ap (λ (o : Option Json). and_then o (λ y. some (rounded float y))) h
  at_path-rounded (k ∷ ks) x v h =
      let (w, e, f) = through ks (member (object_or_empty (some x)) k) v h in
      rw (members_rounded x k w e) (at_path-rounded ks w v f)

  module _ (steady : (n : String) → float (float n) ≡ float n) where
    mutual
      unfolding rounded

      pub rounded-rounded : (x : Json) → rounded float (rounded float x) ≡ rounded float x
      rounded-rounded null = refl
      rounded-rounded (bool b) = refl
      rounded-rounded (number n) = ap number (steady n)
      rounded-rounded (string s) = refl
      rounded-rounded (array l) = ap array (rounded_list-rounded_list l)
      rounded-rounded (object m) = ap object (rounded_object-rounded_object m)

      rounded_list-rounded_list :
          (l : JsonList) → rounded_list float (rounded_list float l) ≡ rounded_list float l
      rounded_list-rounded_list end = refl
      rounded_list-rounded_list (item x l) =
          rw (rounded-rounded x) (rw (rounded_list-rounded_list l) refl)

      rounded_object-rounded_object :
          (m : JsonObject) → rounded_object float (rounded_object float m) ≡ rounded_object float m
      rounded_object-rounded_object empty = refl
      rounded_object-rounded_object (entry k x m) =
          rw (rounded-rounded x) (rw (rounded_object-rounded_object m) refl)
