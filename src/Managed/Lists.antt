-- ===== src/Managed/Lists.antt =====
-- `equality.Semantic.DeepEqual` on slices, for which a nil slice is an empty one.
use hermes_agent_operator.HermesSecret.{entries_in, contents_equal}
use hermes_agent_operator.Prelude.{
  String, Bool, true, false, Option, none, some, List, [], ◌∷◌, ◌&&◌, ◌≡◌, refl, arith, str_eq,
  eq_iff, StringMap, contains, keys, All, insert, Bool-cases, inl, inr, subst, ◌||◌,
}

abbrev pub lists_equal : {A : Type 0} → (A → A → Bool) → List A → List A → Bool
lists_equal eq [] [] = true
lists_equal eq [] (y ∷ ys) = false
lists_equal eq (x ∷ xs) [] = false
lists_equal eq (x ∷ xs) (y ∷ ys) = eq x y && lists_equal eq xs ys

abbrev pub options_equal : {A : Type 0} → (A → A → Bool) → Option A → Option A → Bool
options_equal eq none none = true
options_equal eq none (some y) = false
options_equal eq (some x) none = false
options_equal eq (some x) (some y) = eq x y

pub lists_equal_refl :
    {A : Type 0} (eq : A → A → Bool)
    → ((x : A) → eq x x ≡ true)
    → (xs : List A) → lists_equal eq xs xs ≡ true
lists_equal_refl eq h [] = refl
lists_equal_refl eq h (x ∷ xs) = rw (h x) (lists_equal_refl eq h xs)

-- For elements of which each is equal to itself.
pub lists_equal_refl_on :
    {A : Type 0} (eq : A → A → Bool) (P : A → Type 0)
    → ((x : A) → P x → eq x x ≡ true)
    → (xs : List A) → All P xs
    → lists_equal eq xs xs ≡ true
lists_equal_refl_on eq P h [] q = refl
lists_equal_refl_on eq P h (x ∷ xs) q = rw (h x q.0) (lists_equal_refl_on eq P h xs q.1)

pub options_equal_refl :
    {A : Type 0} (eq : A → A → Bool)
    → ((x : A) → eq x x ≡ true)
    → (o : Option A) → options_equal eq o o ≡ true
options_equal_refl eq h none = refl
options_equal_refl eq h (some x) = h x

pub str_eq_refl : (s : String) → str_eq s s ≡ true
str_eq_refl s = ground (arith, eq_iff s s)

-- A Go map has each key once.
abbrev pub Distinct : List String → Type 0
Distinct [] = Unit
Distinct (k ∷ ks) = (contains ks k ≡ false) × Distinct ks

entries_in_longer :
    (a b : StringMap String) (k v : String)
    → contains (keys a) k ≡ false
    → entries_in a b ≡ true
    → entries_in a ((k, v) ∷ b) ≡ true
unfolding entries_in
entries_in_longer [] b k v h e = refl
entries_in_longer ((j, w) ∷ a) b k v h e =
    ground (arith, eq_iff j k, eq_iff k j, entries_in_longer a b k v)

entries_in_refl : (m : StringMap String) → Distinct (keys m) → entries_in m m ≡ true
unfolding entries_in
entries_in_refl [] d = refl
entries_in_refl ((k, v) ∷ m) d =
    let rest = entries_in_longer m m k v d.0 (entries_in_refl m d.1) in
    rw (str_eq_refl k) (rw (str_eq_refl v) rest)

pub contents_equal_refl : (m : StringMap String) → Distinct (keys m) → contents_equal m m ≡ true
unfolding contents_equal
contents_equal_refl m d = ground (arith, entries_in_refl m d)

pub contains-keys-insert :
    (m : StringMap String) (k v j : String)
    → contains (keys (insert m k v)) j ≡ (str_eq k j || contains (keys m) j)
contains-keys-insert [] k v j = refl
contains-keys-insert ((i, w) ∷ m) k v j =
    ground (arith, eq_iff i k, eq_iff i j, eq_iff k j, contains-keys-insert m k v j)

pub Distinct-insert :
    (m : StringMap String) (k v : String) → Distinct (keys m) → Distinct (keys (insert m k v))
Distinct-insert [] k v d = (refl, tt)
Distinct-insert ((i, w) ∷ m) k v d = elim (Bool-cases (str_eq i k)) [
  | inl e ↦ rw e (subst (λ (x : String). contains (keys m) x ≡ false) ((eq_iff i k).0 e) d.0, d.1)
  | inr e ↦ rw e (
    ground (arith, contains-keys-insert m k v i, eq_iff i k, eq_iff k i, d.0),
    Distinct-insert m k v d.1,
  )
]
