-- ===== src/Prelude/Texts.antt =====
-- Texts: equality tests, membership in a list of texts, and association lists with text keys, which
-- stand for Go's `map[string]V` (the order of entries is not observed by the code modelled here).
use Prim.Native.Char.{Char, code}
use Prim.Native.Nat.{Ordering, lt, eq, gt, ℕ, zero, suc, ◌/◌, ◌%◌}
use Prim.Native.String.{String, ◌++◌ as ◌⧺◌}
use mathlib.Core.Path.{◌≡◌, refl}
use mathlib.Core.Bool.{Bool, true, false, ◌||◌}
use mathlib.Core.Option.{Option, none, some}
use mathlib.Core.List.{List, [], ◌∷◌}
use native.Mathlib.Omega.{arith}
use text.Mathlib.Text.{◌==◌ as text_eq}
use text.Mathlib.TextEquality.{eq_iff, codes_equal}
use hermes_agent_operator.Prelude.Tests.{ltb, ◌==◌, if◌then◌else◌}

-- `a == b` on strings.
abbrev pub str_eq : String → String → Bool
str_eq = text_eq

-- `s == ""`.
abbrev pub is_empty : String → Bool
is_empty s = text_eq s ""

-- `slices.Contains`.
abbrev pub contains : List String → String → Bool
contains [] a = false
contains (x ∷ xs) a = text_eq x a || contains xs a

abbrev pub StringMap {ℓ} : Type ℓ → Type ℓ
StringMap V = List (String × V)

module _ {ℓ} {V : Type ℓ} where
  abbrev pub lookup : StringMap V → String → Option V
  lookup [] k = none
  lookup ((j, v) ∷ m) k = if text_eq j k then some v else lookup m k

  abbrev pub insert : StringMap V → String → V → StringMap V
  insert [] k v = (k, v) ∷ []
  insert ((j, w) ∷ m) k v = if text_eq j k then (k, v) ∷ m else (j, w) ∷ insert m k v

  abbrev pub keys : StringMap V → List String
  keys [] = []
  keys ((k, v) ∷ m) = k ∷ keys m

  pub lookup-insert :
      (m : StringMap V) (k j : String) (v : V)
      → lookup (insert m k v) j ≡ (if text_eq k j then some v else lookup m j)
  lookup-insert [] k j v = refl
  lookup-insert ((i, w) ∷ m) k j v =
      ground (arith, eq_iff k j, eq_iff i k, eq_iff i j, lookup-insert m k j v)

-- `strings.Join`.
abbrev pub join : String → List String → String
join sep [] = ""
join sep (x ∷ []) = x
join sep (x ∷ y ∷ ys) = x ⧺ (sep ⧺ join sep (y ∷ ys))

abbrev digit_in : List String → ℕ → String
digit_in [] n = ""
digit_in (d ∷ ds) zero = d
digit_in (d ∷ ds) (suc n) = digit_in ds n

abbrev digit : ℕ → String
digit n = digit_in ("0" ∷ "1" ∷ "2" ∷ "3" ∷ "4" ∷ "5" ∷ "6" ∷ "7" ∷ "8" ∷ "9" ∷ []) n

abbrev digits : ℕ → ℕ → String
digits zero n = ""
digits (suc more) n =
    let front = digits more (n / 10) in if ltb n 10 then digit n else front ⧺ digit (n % 10)

-- `%d` of an int32 that is not negative, which has at most ten digits.
abbrev pub decimal : ℕ → String
decimal n = digits 10 n

ordered :
    (o : Ordering) → (elim o as (λ x. Bool) [ lt ↦ false | eq ↦ true | gt ↦ false ]) ≡ true → o ≡ eq
ordered lt h = cc
ordered eq h = refl
ordered gt h = cc

pub same_code : (c d : Char) → code c == code d ≡ true → c ≡ d
same_code c d h = codes_equal c d (ordered _ h)
