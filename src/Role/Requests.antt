-- ===== src/Role/Requests.antt =====
-- What the reconciler of the Role and the RoleBinding (internal/usecase/hermesagent_role.go) asks of the
-- cluster.
use hermes_agent_operator.Prelude.{
  String, true, false, Option, none, some, List, [], ◌∷◌, map, ◌≡◌, ◌≢◌, ◌⊎◌, inl, inr, is_empty,
  refl, All, subst, sym, arith, eq_iff, Bool-cases,
}
use hermes_agent_operator.Objects.{PolicyRule, Role, RoleBinding}
use hermes_agent_operator.Api.Security.{RbacRule, get_rbac, get_additional_rules}
use hermes_agent_operator.Api.Agent.{HermesAgent, get_service_account_name}
use hermes_agent_operator.Kube.Client.{ok, Kind, Object, role, role_binding, Platform}
use hermes_agent_operator.Kube.Exec.{State, Request, create, update, delete, update_status, finish}
use hermes_agent_operator.Kube.Writes.{
  OnlyOwns, Writes, Writes-if, Writes-finish, Writes-bind, Writes-attempt, Writes-when,
  Writes-delete, Writes-create, Writes-update, writes_rules,
}
use hermes_agent_operator.Conditions.Laws.{Writes-deferred}
use hermes_agent_operator.Role.{
  policy_rule, has_no_rules, needs_no_role, build_role, build_role_binding, remove, put_role,
  put_role_binding, ensure, with_both, role_body, reconcile_role,
}

abbrev pub IsAgents : HermesAgent → String → String → Type 0
IsAgents ha namespace name = (namespace ≡ ha.namespace) × (name ≡ ha.name)

-- The spec has rules, and names or asks for a ServiceAccount.
pub record HasRules (ha : HermesAgent) : Type 0 where
  pub rules : get_additional_rules (get_rbac ha.spec.security) ≢ []
  pub account : get_service_account_name ha ≢ ""

abbrev pub HasNoRules : HermesAgent → Type 0
HasNoRules ha =
    (get_additional_rules (get_rbac ha.spec.security) ≡ []) ⊎ (get_service_account_name ha ≡ "")

-- The rule grants the verbs of the spec's on its resources in its groups, and nothing else.
pub record IsGranted (r : RbacRule) (q : PolicyRule) : Type 0 where
  pub api_groups : q.api_groups ≡ r.api_groups
  pub resources : q.resources ≡ r.resources
  pub verbs : q.verbs ≡ r.verbs
  pub any_name : q.resource_names ≡ []
  pub no_urls : q.non_resource_urls ≡ []

abbrev pub AreGranted : List RbacRule → List PolicyRule → Type 0
AreGranted [] [] = Unit
AreGranted [] (q ∷ qs) = ⊥
AreGranted (r ∷ rs) [] = ⊥
AreGranted (r ∷ rs) (q ∷ qs) = IsGranted r q × AreGranted rs qs

pub record GrantsRules (ha : HermesAgent) (o : Role) : Type 0 where
  pub wanted : HasRules ha
  pub agents : IsAgents ha o.meta.namespace o.meta.name
  pub rules : AreGranted (get_additional_rules (get_rbac ha.spec.security)) o.rules

-- The one subject of the binding is the agent's ServiceAccount, and what it gets is the agent's Role.
pub record BindsAccount (ha : HermesAgent) (o : RoleBinding) : Type 0 where
  pub wanted : HasRules ha
  pub agents : IsAgents ha o.meta.namespace o.meta.name
  pub subjects :
      o.subjects
      ≡ record {
        kind = "ServiceAccount";
        name = get_service_account_name ha;
        namespace = ha.namespace;
      }
        ∷ []
  pub role_ref :
      o.role_ref ≡ record { api_group = "rbac.authorization.k8s.io"; kind = "Role"; name = ha.name }

abbrev pub IsRoleWrite : HermesAgent → Request → Type 0
IsRoleWrite ha (create role o) = GrantsRules ha o
IsRoleWrite ha (create role_binding o) = BindsAccount ha o
IsRoleWrite ha (create _ o) = ⊥
IsRoleWrite ha (update role o) = GrantsRules ha o
IsRoleWrite ha (update role_binding o) = BindsAccount ha o
IsRoleWrite ha (update _ o) = ⊥
IsRoleWrite ha (delete role n) = HasNoRules ha × IsAgents ha n.namespace n.name
IsRoleWrite ha (delete role_binding n) = HasNoRules ha × IsAgents ha n.namespace n.name
IsRoleWrite ha (delete _ n) = ⊥
IsRoleWrite ha (update_status _) = Unit

rules_there : (rs : List RbacRule) → has_no_rules rs ≡ false → rs ≢ []
rules_there [] h e = ground arith
rules_there (r ∷ rs) h e = cc

no_rules_there : (rs : List RbacRule) → has_no_rules rs ≡ true → rs ≡ []
no_rules_there [] h = refl
no_rules_there (r ∷ rs) h = ground arith

name_there : (n : String) → is_empty n ≡ false → n ≢ ""
name_there n h e = let k : is_empty n ≡ true = rw e refl in ground arith

needed : (ha : HermesAgent) → needs_no_role ha ≡ false → HasRules ha
needed ha e = record {
  rules = rules_there (get_additional_rules (get_rbac ha.spec.security)) (ground arith);
  account = name_there (get_service_account_name ha) (ground arith);
}

not_needed : (ha : HermesAgent) → needs_no_role ha ≡ true → HasNoRules ha
not_needed ha e =
    elim (Bool-cases (has_no_rules (get_additional_rules (get_rbac ha.spec.security)))) [
      | inl none_there ↦ inl (no_rules_there _ none_there)
      | inr there ↦ inr ((eq_iff (get_service_account_name ha) "").0 (ground arith))
    ]

granted : (rs : List RbacRule) → AreGranted rs (map policy_rule rs)
granted [] = tt
granted (r ∷ rs) = (
  record { api_groups = refl; resources = refl; verbs = refl; any_name = refl; no_urls = refl },
  granted rs,
)

built_role :
    (ha : HermesAgent) (version : String)
    → needs_no_role ha ≡ false
    → GrantsRules ha (build_role ha version)
unfolding build_role
built_role ha version e = record {
  wanted = needed ha e;
  agents = (refl, refl);
  rules = granted (get_additional_rules (get_rbac ha.spec.security));
}

built_binding :
    (ha : HermesAgent) (version : String)
    → needs_no_role ha ≡ false
    → BindsAccount ha (build_role_binding ha version)
unfolding build_role_binding
built_binding ha version e = record {
  wanted = needed ha e;
  agents = (refl, refl);
  subjects = refl;
  role_ref = refl;
}

module _ {W : Type 0} (p : Platform W) (ha : HermesAgent) where
  Writes-remove :
      (existing : Option Role) (binding : Option RoleBinding)
      → needs_no_role ha ≡ true
      → Writes (IsRoleWrite ha) (remove p ha existing binding)
  unfolding remove
  Writes-remove existing binding e =
      Writes-bind _ _
        (Writes-when _ _
          (λ _. Writes-attempt _ (Writes-delete p role_binding _ (not_needed ha e, (refl, refl)))))
        (λ _.
          Writes-bind _ _
            (Writes-when _ _
              (λ _. Writes-attempt _ (Writes-delete p role _ (not_needed ha e, (refl, refl)))))
            (λ _. search writes_rules depth 9))

  module _ (owns : OnlyOwns p) where
    -- A request on an object that gets the agent as its controller satisfies what it does without.
    owned :
        (k : Kind) (Q : Object k → Type 0) (o : Object k)
        → Q o
        → (o' : Object k) → p.set_controller_reference k ha o ≡ ok o'
        → Q o'
    owned k Q o q o' e = subst Q (sym (owns k ha o o' e)) q

    Writes-put_role :
        (existing : Option Role)
        → needs_no_role ha ≡ false
        → Writes (IsRoleWrite ha) (put_role p ha existing)
    unfolding put_role
    Writes-put_role none e =
        Writes-attempt _
          (Writes-create p ha role _ (owned role (GrantsRules ha) _ (built_role ha "" e)))
    Writes-put_role (some o) e = Writes-when _ _ (λ _.
        Writes-attempt _
          (Writes-update p ha role _ (owned role (GrantsRules ha) _ (built_role ha _ e))))

    Writes-put_role_binding :
        (existing : Option RoleBinding)
        → needs_no_role ha ≡ false
        → Writes (IsRoleWrite ha) (put_role_binding p ha existing)
    unfolding put_role_binding
    Writes-put_role_binding none e = Writes-attempt _ (
        Writes-create p ha role_binding _
          (owned role_binding (BindsAccount ha) _ (built_binding ha "" e)))
    Writes-put_role_binding (some o) e = Writes-when _ _ (λ _. Writes-attempt _ (
        Writes-update p ha role_binding _
          (owned role_binding (BindsAccount ha) _ (built_binding ha _ e))))

    Writes-ensure :
        (existing : Option Role) (binding : Option RoleBinding)
        → needs_no_role ha ≡ false
        → Writes (IsRoleWrite ha) (ensure p ha existing binding)
    unfolding ensure
    Writes-ensure existing binding e = Writes-bind _ _ (Writes-put_role existing e) (λ _.
        Writes-bind _ _ (Writes-put_role_binding binding e) (λ _. search writes_rules depth 9))

    Writes-with_both :
        (existing : Option Role) (binding : Option RoleBinding)
        → Writes (IsRoleWrite ha) (with_both p ha existing binding)
    unfolding with_both
    Writes-with_both existing binding =
        Writes-if _ _ _ (Writes-remove existing binding) (Writes-ensure existing binding)

    Writes-body : Writes (IsRoleWrite ha) (role_body p ha)
    unfolding role_body
    Writes-body = search (writes_rules, Writes-with_both)

    -- Where setting the controller reference changes only the owner references, each write that the
    -- reconciler adds to the log, whatever the cluster answers, is one of these. With rules in the spec
    -- and the name of a ServiceAccount: the agent's Role, created or updated with one rule for each of the
    -- spec, in order, with its groups, resources and verbs and nothing else; or the agent's RoleBinding,
    -- created or updated with that ServiceAccount in the agent's namespace as its one subject and the
    -- agent's Role. Without rules or a ServiceAccount: the deletion of either. And in both cases a write
    -- of the status.
    pub reconcile_role-writes :
        (s : State W)
        → All (IsRoleWrite ha) s.log
        → All (IsRoleWrite ha) (reconcile_role p ha s).1.log
    unfolding reconcile_role
    reconcile_role-writes s h =
        (Writes-deferred p ha (λ st. tt) "RoleReconcileFailed" (finish (role_body p ha))
            (Writes-finish _ Writes-body)).at
          s h
