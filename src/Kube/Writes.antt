-- ===== src/Kube/Writes.antt =====
-- What a reconciler writes: `Writes P m` says that every request that `m` adds to the log satisfies
-- `P`, whatever the cluster answers. One rule for each way to build an action.
use hermes_agent_operator.Prelude.{
  ℕ, String, Bool, true, false, Option, none, some, All, ◌≡◌, refl, if◌then◌else◌, if_some,
}
use hermes_agent_operator.Objects.{NsName}
use hermes_agent_operator.Api.Agent.{HermesAgent, HermesAgentStatus}
use hermes_agent_operator.Kube.Client.{
  Result, ok, err, Kind, Object, VolumeSnapshot, Platform, pod, config_map, secret, stateful_set,
  service_account, role, role_binding, service, ingress, network_policy, persistent_volume_claim,
  volume_snapshot,
}
use hermes_agent_operator.Kube.Exec.{
  State, Request, Outcome, Flow, next, stop, Call, Exec, pure, return, attempt, tried, acted, lift,
  gets, modify_status, finish, when, continue, ◌>>=◌,
}
use hermes_agent_operator.Kube.Calls

-- SetControllerReference changes the owner references of an object, which the model does not hold, and
-- nothing else.
abbrev pub OnlyOwns : {W : Type 0} → Platform W → Type 0
OnlyOwns p =
    (k : Kind) (ha : HermesAgent) (o o' : Object k)
    → p.set_controller_reference k ha o ≡ ok o'
    → o' ≡ o

pub record Writes {W X : Type 0} (P : Request → Type 0) (m : State W → X × State W) : Type 0 where
  pub at : (s : State W) → All P s.log → All P (m s).1.log

module _ {W A : Type 0} {P : Request → Type 0} where
  pub Writes-pure : (a : A) → Writes P (pure {W = W} a)
  unfolding pure
  Writes-pure a = record { at = λ s h. h }

  pub Writes-return : (o : Outcome) → Writes P (return {W = W} {A = A} o)
  unfolding return
  Writes-return o = record { at = λ s h. h }

  pub Writes-attempt : (m : Call W A) → Writes P m → Writes P (attempt m)
  unfolding attempt
  Writes-attempt m h = record { at = h.at }

  pub Writes-tried : (m : Call W A) → Writes P m → Writes P (tried m)
  unfolding tried
  Writes-tried m h = record { at = h.at }

  pub Writes-acted : (m : State W → A × State W) → Writes P m → Writes P (acted m)
  unfolding acted
  Writes-acted m h = record { at = h.at }

  pub Writes-lift : (r : Result A) → Writes P (lift {W = W} r)
  unfolding lift
  Writes-lift r = record { at = λ s h. h }

  pub Writes-gets : (f : State W → A) → Writes P (gets f)
  unfolding gets
  Writes-gets f = record { at = λ s h. h }

  pub Writes-if :
      (b : Bool) (m n : State W → A × State W)
      → (b ≡ true → Writes P m)
      → (b ≡ false → Writes P n)
      → Writes P (if b then m else n)
  Writes-if true m n hm hn = hm refl
  Writes-if false m n hm hn = hn refl

  pub Writes-if_some :
      {B : Type 0} (o : Option B) (f : B → State W → A × State W) (n : State W → A × State W)
      → ((b : B) → o ≡ some b → Writes P (f b))
      → (o ≡ none → Writes P n)
      → Writes P (if_some o f n)
  Writes-if_some none f n hf hn = hn refl
  Writes-if_some (some b) f n hf hn = hf b refl

module _ {W A B : Type 0} {P : Request → Type 0} where
  Writes-continue :
      (r : Flow A) (f : A → Exec W B) → ((a : A) → Writes P (f a)) → Writes P (λ s. continue r f s)
  Writes-continue (next a) f h = record { at = (h a).at }
  Writes-continue (stop o) f h = record { at = λ s k. k }

  pub Writes-bind :
      (m : Exec W A) (f : A → Exec W B)
      → Writes P m
      → ((a : A) → Writes P (f a))
      → Writes P (m >>= f)
  unfolding ◌>>=◌
  Writes-bind m f hm hf = record {
    at = λ s h. let (r, s') = m s in (Writes-continue r f hf).at s' (hm.at s h);
  }

module _ {W : Type 0} {P : Request → Type 0} where
  pub Writes-modify :
      (f : HermesAgentStatus → HermesAgentStatus) → Writes P (modify_status {W = W} f)
  unfolding modify_status
  Writes-modify f = record { at = λ s h. h }

  pub Writes-finish : (m : Exec W Outcome) → Writes P m → Writes P (finish m)
  unfolding finish
  Writes-finish m h = record { at = h.at }

  pub Writes-when :
      (b : Bool) (m : Exec W (Unit {0})) → (b ≡ true → Writes P m) → Writes P (when b m)
  unfolding when
  Writes-when true m h = h refl
  Writes-when false m h = Writes-pure tt

module _ {W : Type 0} {P : Request → Type 0} (p : Platform W) where
  Writes-get : (k : Kind) (n : NsName) → Writes P (Calls.get p k n)
  unfolding Calls.get
  Writes-get k n = record { at = λ s h. h }

  -- At each kind, since a rule over every kind does not determine it.
  pub Writes-get_pod : (n : NsName) → Writes P (Calls.get_pod p n)
  Writes-get_pod = Writes-get pod

  pub Writes-get_config_map : (n : NsName) → Writes P (Calls.get_config_map p n)
  Writes-get_config_map = Writes-get config_map

  pub Writes-get_secret : (n : NsName) → Writes P (Calls.get_secret p n)
  Writes-get_secret = Writes-get secret

  pub Writes-get_stateful_set : (n : NsName) → Writes P (Calls.get_stateful_set p n)
  Writes-get_stateful_set = Writes-get stateful_set

  pub Writes-get_service_account : (n : NsName) → Writes P (Calls.get_service_account p n)
  Writes-get_service_account = Writes-get service_account

  pub Writes-get_role : (n : NsName) → Writes P (Calls.get_role p n)
  Writes-get_role = Writes-get role

  pub Writes-get_role_binding : (n : NsName) → Writes P (Calls.get_role_binding p n)
  Writes-get_role_binding = Writes-get role_binding

  pub Writes-get_service : (n : NsName) → Writes P (Calls.get_service p n)
  Writes-get_service = Writes-get service

  pub Writes-get_ingress : (n : NsName) → Writes P (Calls.get_ingress p n)
  Writes-get_ingress = Writes-get ingress

  pub Writes-get_network_policy : (n : NsName) → Writes P (Calls.get_network_policy p n)
  Writes-get_network_policy = Writes-get network_policy

  pub Writes-get_persistent_volume_claim :
      (n : NsName) → Writes P (Calls.get_persistent_volume_claim p n)
  Writes-get_persistent_volume_claim = Writes-get persistent_volume_claim

  pub Writes-get_volume_snapshot : (n : NsName) → Writes P (Calls.get_volume_snapshot p n)
  Writes-get_volume_snapshot = Writes-get volume_snapshot

  pub Writes-list : (n a : String) → Writes P (Calls.list_volume_snapshots p n a)
  unfolding Calls.list_volume_snapshots
  Writes-list n a = record { at = λ s h. h }

  pub Writes-clock : Writes P (Calls.read_clock p)
  unfolding Calls.read_clock
  Writes-clock = record { at = λ s h. h }

  pub Writes-random : (n : ℕ) → Writes P (Calls.read_random p n)
  unfolding Calls.read_random
  Writes-random n = record { at = λ s h. h }

  pub Writes-delete :
      (k : Kind) (n : NsName) → P (Request.delete k n) → Writes P (Calls.delete p k n)
  unfolding Calls.delete
  Writes-delete k n q = record { at = λ s h. (q, h) }

  pub Writes-create :
      (ha : HermesAgent) (k : Kind) (o : Object k)
      → ((o' : Object k) → p.set_controller_reference k ha o ≡ ok o' → P (Request.create k o'))
      → Writes P (Calls.create p ha k o)
  unfolding Calls.create
  Writes-create ha k o q = record {
    at = λ s h.
        (elim (p.set_controller_reference k ha o)
            as (λ r.
              ((o' : Object k) → r ≡ ok o' → P (Request.create k o'))
              → All P (Calls.create_owned p k r s).1.log) [
                | ok o' ↦ λ f. (f o' refl, h)
                | err e ↦ λ f. h
              ])
          q;
  }

  pub Writes-update :
      (ha : HermesAgent) (k : Kind) (o : Object k)
      → ((o' : Object k) → p.set_controller_reference k ha o ≡ ok o' → P (Request.update k o'))
      → Writes P (Calls.update p ha k o)
  unfolding Calls.update
  Writes-update ha k o q = record {
    at = λ s h.
        (elim (p.set_controller_reference k ha o)
            as (λ r.
              ((o' : Object k) → r ≡ ok o' → P (Request.update k o'))
              → All P (Calls.update_owned p k r s).1.log) [
                | ok o' ↦ λ f. (f o' refl, h)
                | err e ↦ λ f. h
              ])
          q;
  }

  pub Writes-create_snapshot :
      (ha : HermesAgent) (o : VolumeSnapshot)
      → P (Request.create volume_snapshot (Calls.labelled ha o))
      → Writes P (Calls.create_volume_snapshot p ha o)
  unfolding Calls.create_volume_snapshot
  Writes-create_snapshot ha o q = record { at = λ s h. (q, h) }

  pub Writes-status :
      (ha : HermesAgent)
      → ((st : HermesAgentStatus) → P (Request.update_status st))
      → Writes P (Calls.update_hermes_agent_status p ha)
  unfolding Calls.update_hermes_agent_status
  Writes-status ha q = record {
    at = λ s h.
        let (r, w) = p.client_update_status ha s.status s.world in
        (elim r as (λ x. All P (Calls.status_sent p s (x, w)).1.log) [
          | ok st ↦ (q s.status, h)
          | err e ↦ (q s.status, h)
        ]);
  }

pub ruleset writes_rules = (
  Writes-pure, Writes-return, Writes-attempt, Writes-tried, Writes-acted, Writes-lift, Writes-gets,
  Writes-if, Writes-if_some, Writes-bind, Writes-modify, Writes-finish, Writes-when, Writes-get_pod,
  Writes-get_config_map, Writes-get_secret, Writes-get_stateful_set, Writes-get_service_account,
  Writes-get_role, Writes-get_role_binding, Writes-get_service, Writes-get_ingress,
  Writes-get_network_policy, Writes-get_persistent_volume_claim, Writes-get_volume_snapshot,
  Writes-list, Writes-clock, Writes-random, Writes-delete, Writes-create, Writes-update,
  Writes-create_snapshot, Writes-status,
)
