-- ===== src/Kube/Bound.antt =====
-- What is known of the parts of an action that went on.
use hermes_agent_operator.Prelude.{◌≡◌, refl}
use hermes_agent_operator.Kube.Client.{Result, ok, err}
use hermes_agent_operator.Kube.Exec.{
  State, Outcome, Flow, next, stop, Call, Exec, attempt, or_retry, continue, ◌>>=◌,
}

not_next : {A : Type 0} {o : Outcome} {a : A} → stop o ≡ next a → ⊥
not_next h = cc

pub next_injective : {A : Type 0} {a b : A} → next a ≡ next b → a ≡ b
next_injective h = cc

went_on :
    {W A B : Type 0} (r : Flow A) (f : A → Exec W B) (t : State W) {b : B}
    → (continue r f t).0 ≡ next b
    → (a : A) × (r ≡ next a) × ((f a t).0 ≡ next b)
went_on (next a) f t h = (a, refl, h)
went_on (stop o) f t h = absurd (not_next h)

-- An action that went on: each of its two parts did.
pub bound :
    {W A B : Type 0} (m : Exec W A) (f : A → Exec W B) (s : State W) {b : B}
    → ((m >>= f) s).0 ≡ next b
    → (a : A) × (t : State W) × ((m s).0 ≡ next a) × ((f a t).0 ≡ next b)
unfolding ◌>>=◌
bound m f s h = let (a, e, k) = went_on (m s).0 f (m s).1 h in (a, (m s).1, e, k)

retried : {A : Type 0} (r : Result A) {a : A} → or_retry r ≡ next a → r ≡ ok a
retried (ok b) h = cc
retried (err e) h = cc

-- A call whose error would have made the reconciler return.
pub attempted :
    {W A : Type 0} (m : Call W A) (s : State W) {a : A} → (attempt m s).0 ≡ next a → (m s).0 ≡ ok a
unfolding attempt
attempted m s h = retried (m s).0 h
