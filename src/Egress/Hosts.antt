-- ===== src/Egress/Hosts.antt =====
-- Host patterns (hostsOverlap, api/v1alpha1/hermesagent_egress.go) over code points, and what iron-proxy
-- matches with one: a host itself, or by suffix for a pattern that begins with "*.".
use Prim.Native.Char.{code}
use hermes_agent_operator.Prelude.{
  ℕ, ◌+◌, String, Bool, true, false, List, [], ◌∷◌, ◌++◌, ◌&&◌, ◌||◌, ◌==◌, leb, map, ◌≡◌, refl,
  ◌⊎◌, inl, inr, ◌↔◌, arith, ap, sym, ◌∙◌, Bool-cases, if◌then◌else◌, subst,
}

abbrev pub codes : String → List ℕ
codes String.[] = []
codes (String.◌∷◌ c s) = code c ∷ codes s

-- `strings.ToLower`, for the letters that a host name has.
abbrev pub lower : ℕ → ℕ
lower c = if leb b'A' c && leb c b'Z' then c + 32 else c

abbrev pub lower_codes : String → List ℕ
lower_codes s = map lower (codes s)

abbrev pub list_eq : List ℕ → List ℕ → Bool
list_eq [] [] = true
list_eq [] (y ∷ ys) = false
list_eq (x ∷ xs) [] = false
list_eq (x ∷ xs) (y ∷ ys) = x == y && list_eq xs ys

-- `strings.HasSuffix`.
abbrev pub has_suffix : List ℕ → List ℕ → Bool
has_suffix [] suffix = list_eq [] suffix
has_suffix (x ∷ xs) suffix = list_eq (x ∷ xs) suffix || has_suffix xs suffix

-- `strings.HasPrefix(pattern, "*.") && strings.HasSuffix(host, pattern[1:])`.
abbrev pub covers : List ℕ → List ℕ → Bool
covers [] host = false
covers (s ∷ []) host = false
covers (s ∷ d ∷ rest) host = (s == b'*' && d == b'.') && has_suffix host (d ∷ rest)

pub patterns_overlap : List ℕ → List ℕ → Bool
patterns_overlap a b = list_eq a b || (covers a b || covers b a)

unfoldable pub hosts_overlap : String → String → Bool
unfolding patterns_overlap
hosts_overlap a b = patterns_overlap (lower_codes a) (lower_codes b)

-- iron-proxy's rule, for a host in lower case.
abbrev pub MatchesHost : List ℕ → List ℕ → Type 0
MatchesHost pattern host =
    (host ≡ pattern)
    ⊎ ((suffix : List ℕ) × (before : List ℕ) × (pattern ≡ b'*' ∷ b'.' ∷ suffix)
        × (host ≡ before ++ (b'.' ∷ suffix)))

list_eq→≡ : (xs ys : List ℕ) → list_eq xs ys ≡ true → xs ≡ ys
list_eq→≡ [] [] h = refl
list_eq→≡ [] (y ∷ ys) h = cc
list_eq→≡ (x ∷ xs) [] h = cc
list_eq→≡ (x ∷ xs) (y ∷ ys) h = ground (arith, list_eq→≡ xs ys)

list_eq_refl : (xs : List ℕ) → list_eq xs xs ≡ true
list_eq_refl [] = refl
list_eq_refl (x ∷ xs) = ground (arith, list_eq_refl xs)

has_suffix→append :
    (xs suffix : List ℕ) → has_suffix xs suffix ≡ true → (before : List ℕ) × (xs ≡ before ++ suffix)
has_suffix→append [] suffix h = ([], list_eq→≡ [] suffix h)
has_suffix→append (x ∷ xs) suffix h = elim (Bool-cases (list_eq (x ∷ xs) suffix)) [
  | inl e ↦ ([], list_eq→≡ (x ∷ xs) suffix e)
  | inr e ↦
      let (before, q) = has_suffix→append xs suffix (rw e at h) in
      (x ∷ before, ap (λ (l : List ℕ). x ∷ l) q)
]

has_suffix_self : (xs : List ℕ) → has_suffix xs xs ≡ true
has_suffix_self [] = refl
has_suffix_self (x ∷ xs) = rw (list_eq_refl (x ∷ xs))

append-has_suffix : (before suffix : List ℕ) → has_suffix (before ++ suffix) suffix ≡ true
append-has_suffix [] suffix = has_suffix_self suffix
append-has_suffix (x ∷ before) suffix = ground (arith, append-has_suffix before suffix)

-- Of two suffixes of one list, one is a suffix of the other.
suffixes_nest :
    (u v s t : List ℕ)
    → u ++ s ≡ v ++ t
    → ((w : List ℕ) × (t ≡ w ++ s)) ⊎ ((w : List ℕ) × (s ≡ w ++ t))
suffixes_nest [] v s t h = inr (v, h)
suffixes_nest (x ∷ u) [] s t h = inl (x ∷ u, sym h)
suffixes_nest (x ∷ u) (y ∷ v) s t h = suffixes_nest u v s t (cc h)

covers_suffix :
    (suffix before : List ℕ) → covers (b'*' ∷ b'.' ∷ suffix) (before ++ (b'.' ∷ suffix)) ≡ true
covers_suffix suffix before = append-has_suffix before (b'.' ∷ suffix)

covers→matches : (pattern host : List ℕ) → covers pattern host ≡ true → MatchesHost pattern host
covers→matches [] host h = cc
covers→matches (s ∷ []) host h = cc
covers→matches (s ∷ d ∷ rest) host h =
    let star : s ≡ b'*' = ground arith in
    let dot : d ≡ b'.' = ground arith in
    let suffix : has_suffix host (d ∷ rest) ≡ true = ground arith in
    let (before, q) = has_suffix→append host (d ∷ rest) suffix in
    inr (rest, before, cc (star, dot), q ∙ ap (λ (c : ℕ). before ++ (c ∷ rest)) dot)

-- A pattern matches its own text.
matches_self : (pattern : List ℕ) → MatchesHost pattern pattern
matches_self pattern = inl refl

-- A pattern with a wildcard covers every host that another one behind it matches.
nested_covers :
    (s t w : List ℕ)
    → b'.' ∷ t ≡ w ++ (b'.' ∷ s)
    → covers (b'*' ∷ b'.' ∷ s) (b'*' ∷ b'.' ∷ t) ≡ true
nested_covers s t w e =
    subst (λ l. covers (b'*' ∷ b'.' ∷ s) (b'*' ∷ l) ≡ true) (sym e) (covers_suffix s (b'*' ∷ w))

overlap_left : (a b : List ℕ) → covers a b ≡ true → patterns_overlap a b ≡ true
unfolding patterns_overlap
overlap_left a b h = ground arith

overlap_right : (a b : List ℕ) → covers b a ≡ true → patterns_overlap a b ≡ true
unfolding patterns_overlap
overlap_right a b h = ground arith

-- A host that two patterns match makes them overlap.
matches_overlap :
    (a b host : List ℕ) → MatchesHost a host → MatchesHost b host → patterns_overlap a b ≡ true
unfolding patterns_overlap
matches_overlap a b host (inl e) (inl f) =
    let same : a ≡ b = sym e ∙ f in
    subst (λ (l : List ℕ). list_eq a l || (covers a l || covers l a) ≡ true) same
      (rw (list_eq_refl a))
matches_overlap a b host (inl e) (inr (s, before, p, q)) =
    overlap_right a b
      (rw p (subst (λ l. covers (b'*' ∷ b'.' ∷ s) l ≡ true) (sym q ∙ e) (covers_suffix s before)))
matches_overlap a b host (inr (s, before, p, q)) (inl f) =
    overlap_left a b
      (rw p (subst (λ l. covers (b'*' ∷ b'.' ∷ s) l ≡ true) (sym q ∙ f) (covers_suffix s before)))
matches_overlap a b host (inr (s, u, p, q)) (inr (t, v, p', q')) =
    elim (suffixes_nest u v (b'.' ∷ s) (b'.' ∷ t) (sym q ∙ q')) [
      | inl (w, e) ↦ overlap_left a b (rw (p, p') (nested_covers s t w e))
      | inr (w, e) ↦ overlap_right a b (rw (p, p') (nested_covers t s w e))
    ]

overlap_matches :
    (a b : List ℕ)
    → patterns_overlap a b ≡ true
    → (host : List ℕ) × MatchesHost a host × MatchesHost b host
unfolding patterns_overlap
overlap_matches a b h = elim (Bool-cases (list_eq a b)) [
  | inl e ↦ (b, inl (sym (list_eq→≡ a b e)), matches_self b)
  | inr e ↦ elim (Bool-cases (covers a b)) [
    | inl f ↦ (b, covers→matches a b f, matches_self b)
    | inr f ↦ (a, matches_self a, covers→matches b a (rw (e, f) at h))
  ]
]

-- Two patterns are found to overlap exactly when some host in lower case is matched by both, as
-- iron-proxy matches, after both patterns are brought to lower case.
pub hosts_overlap_iff :
    (a b : String)
    → hosts_overlap a b ≡ true
      ↔ ((host : List ℕ) × MatchesHost (lower_codes a) host × MatchesHost (lower_codes b) host)
unfolding hosts_overlap
hosts_overlap_iff a b = (
  overlap_matches (lower_codes a) (lower_codes b),
  λ m. matches_overlap (lower_codes a) (lower_codes b) m.0 m.1 m.2,
)
