-- ===== src/Workload/Names/SameSet.antt =====
-- The test of the claim templates (sameVolumeClaimTemplateNames,
-- internal/usecase/hermesagent_statefulset.go) against a description of equal sets of names.
use hermes_agent_operator.Prelude.{
  suc, ◌≤◌, String, Bool, true, false, List, [], ◌∷◌, ◌≡◌, ◌≢◌, ◌↔◌, refl, sym, ap, ◌∙◌, subst,
  arith, eq_iff, str_eq, length, contains, Bool-cases, inl, inr, if◌then◌else◌,
}
use hermes_agent_operator.Objects.{claim_names, StatefulSet}
use hermes_agent_operator.Managed.Lists.{Distinct}
use hermes_agent_operator.Workload.Names.{all_in, same_names, same_volume_claim_template_names}

-- The same names, in any order.
abbrev pub IsSameSet : List String → List String → Type 0
IsSameSet xs ys = (n : String) → contains xs n ≡ contains ys n

abbrev IsWithin : List String → List String → Type 0
IsWithin xs ys = (n : String) → contains xs n ≡ true → contains ys n ≡ true

true_is_not_false : ◌≡◌ {A = Bool} true false → ⊥
true_is_not_false h = cc

remove : String → List String → List String
remove x [] = []
remove x (y ∷ ys) = let rest = remove x ys in if str_eq y x then ys else y ∷ rest

length-remove :
    (x : String) (ys : List String) → contains ys x ≡ true → length ys ≡ suc (length (remove x ys))
unfolding remove
length-remove x [] h = cc
length-remove x (y ∷ ys) h = ground (arith, length-remove x ys)

contains-remove :
    (x n : String) (ys : List String)
    → x ≢ n
    → contains ys n ≡ true
    → contains (remove x ys) n ≡ true
unfolding remove
contains-remove x n [] d h = cc
contains-remove x n (y ∷ ys) d h =
    ground (arith, eq_iff y x, eq_iff y n, eq_iff x n, d, contains-remove x n ys d)

-- Distinct names that are all in a list are no more than it has.
within-length : (xs ys : List String) → Distinct xs → IsWithin xs ys → length xs ≤ length ys
within-length [] ys d h = omega arith
within-length (x ∷ xs) ys d h =
    let there : contains ys x ≡ true = h x (ground (arith, eq_iff x x)) in
    let shorter = length-remove x ys there in
    let rest : length xs ≤ length (remove x ys) = within-length xs (remove x ys) d.1 (λ n k.
      contains-remove x n ys
        (λ same. true_is_not_false (sym k ∙ ap (λ (m : String). contains xs m) (sym same) ∙ d.0))
        (h n (ground arith))) in
    omega (arith, shorter, rest)

all_in-IsWithin : (live desired : List String) → all_in live desired ≡ true → IsWithin desired live
all_in-IsWithin live [] h n k = cc
all_in-IsWithin live (x ∷ xs) h n k =
    ground (arith, eq_iff x n, all_in-IsWithin live xs (ground arith) n)

IsWithin-all_in : (live desired : List String) → IsWithin desired live → all_in live desired ≡ true
IsWithin-all_in live [] h = refl
IsWithin-all_in live (x ∷ xs) h =
    let first = h x (ground (arith, eq_iff x x)) in
    let rest = IsWithin-all_in live xs (λ n k. h n (ground arith)) in ground (arith, first, rest)

-- A list that has no more names than the distinct ones in it has no other.
no_other :
    (live desired : List String)
    → Distinct desired
    → length live ≡ length desired
    → IsWithin desired live
    → IsSameSet live desired
no_other live desired d e h n = elim (Bool-cases (contains desired n)) [
  | inl k ↦ h n k ∙ sym k
  | inr k ↦ elim (Bool-cases (contains live n)) [
    | inl there ↦
        let longer : suc (length desired) ≤ length live =
          within-length (n ∷ desired) live (k, d)
            (λ m q. elim (Bool-cases (str_eq n m)) [
              | inl same ↦
                  subst (λ (x : String). contains live x ≡ true) ((eq_iff n m).0 same) there
              | inr differs ↦ h m (ground arith)
            ]) in
        absurd (omega (arith, longer, e))
    | inr missing ↦ missing ∙ sym k
  ]
]

same_names_lem :
    (live desired : List String)
    → Distinct live
    → Distinct desired
    → (same_names live desired ≡ true) ↔ IsSameSet live desired
same_names_lem live desired dl dd = (
  λ h. no_other live desired dd (ground arith) (all_in-IsWithin live desired (ground arith)),
  λ same.
      let back = within-length live desired dl (λ n k. sym (same n) ∙ k) in
      let forth = within-length desired live dd (λ n k. same n ∙ k) in
      let inside = IsWithin-all_in live desired (λ n k. same n ∙ k) in
      ground (arith, back, forth, inside),
)

-- Where the names of the claim templates are distinct on both sides, as they are in a StatefulSet: the
-- test passes exactly if each name is on one side if it is on the other, in whatever order.
pub same_volume_claim_template_names_iff :
    (live desired : StatefulSet)
    → Distinct (claim_names live.volume_claim_templates)
    → Distinct (claim_names desired.volume_claim_templates)
    → (same_volume_claim_template_names live desired ≡ true)
      ↔ IsSameSet
          (claim_names live.volume_claim_templates)
          (claim_names desired.volume_claim_templates)
same_volume_claim_template_names_iff live desired dl dd =
    same_names_lem (claim_names live.volume_claim_templates)
      (claim_names desired.volume_claim_templates) dl dd
