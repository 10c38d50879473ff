-- ===== src/SearxngConfigMap/Requests.antt =====
-- What the reconciler of SearXNG's ConfigMap asks of the cluster, whatever the cluster answers, and what
-- the ConfigMap holds.
use hermes_agent_operator.Prelude.{
  String, Bool, true, false, Option, none, some, [], ◌≡◌, refl, All, subst, sym, arith, not,
  is_some, lookup, lookup-insert, StringMap, Bool-cases, inl, inr, if_some,
}
use hermes_agent_operator.Objects.{ConfigMap}
use hermes_agent_operator.Api.Agent.{HermesAgent, SearxNg, get_searxng_name, searxng_enabled}
use hermes_agent_operator.Kube.Client.{ok, config_map, Platform}
use hermes_agent_operator.Kube.Exec.{
  State, Request, create, update, delete, update_status, finish, done,
}
use hermes_agent_operator.Kube.Writes.{
  OnlyOwns, Writes, Writes-if, Writes-finish, Writes-bind, Writes-attempt, Writes-when,
  Writes-delete, Writes-create, Writes-update, Writes-pure, writes_rules,
}
use hermes_agent_operator.Conditions.Laws.{Writes-deferred}
use hermes_agent_operator.SearxngConfigMap.{
  settings_file, default_searxng_settings, with_settings, get_config_files,
  build_searxng_config_map, config_map_data_equal, record_config_map, remove_config_map,
  refresh_config_map, put_config_map, with_config_map, searxng_config_map_body,
  reconcile_searxng_config_map,
}

-- SearXNG's ConfigMap, with a settings file among its files.
abbrev pub IsSearxngMap : HermesAgent → ConfigMap → Type 0
IsSearxngMap ha o =
    (searxng_enabled ha.spec.searxng ≡ true)
    × ((o.meta.namespace ≡ ha.namespace)
        × ((o.meta.name ≡ get_searxng_name ha)
            × (is_some (lookup o.contents settings_file) ≡ true)))

abbrev pub IsConfigMapWrite : HermesAgent → Request → Type 0
IsConfigMapWrite ha (create config_map o) = IsSearxngMap ha o
IsConfigMapWrite ha (create _ o) = ⊥
IsConfigMapWrite ha (update config_map o) = IsSearxngMap ha o
IsConfigMapWrite ha (update _ o) = ⊥
IsConfigMapWrite ha (delete config_map n) =
    (searxng_enabled ha.spec.searxng ≡ false)
    × ((n.namespace ≡ ha.namespace) × (n.name ≡ get_searxng_name ha))
IsConfigMapWrite ha (delete _ n) = ⊥
IsConfigMapWrite ha (update_status _) = Unit

has_settings :
    (files : StringMap String) → is_some (lookup (with_settings files) settings_file) ≡ true
has_settings files = elim (Bool-cases (is_some (lookup files settings_file))) [
  | inl e ↦ rw e e
  | inr e ↦
      rw e
        (ground (arith, lookup-insert files settings_file settings_file default_searxng_settings))
]

built :
    (ha : HermesAgent) (version : String)
    → searxng_enabled ha.spec.searxng ≡ true
    → IsSearxngMap ha (build_searxng_config_map ha version)
unfolding build_searxng_config_map get_config_files
built ha version e =
    (e, (refl, (refl, has_settings (if_some ha.spec.searxng (λ (x : SearxNg). x.config_files) []))))

is_off : (b : Bool) → not b ≡ true → b ≡ false
is_off b h = ground arith

is_on : (b : Bool) → not b ≡ false → b ≡ true
is_on b h = ground arith

module _ {W : Type 0} (p : Platform W) (ha : HermesAgent) where
  Writes-record : (name : String) → Writes (IsConfigMapWrite ha) (record_config_map p ha name)
  unfolding record_config_map
  Writes-record name = search writes_rules depth 9

  Writes-remove :
      (existing : Option ConfigMap)
      → searxng_enabled ha.spec.searxng ≡ false
      → Writes (IsConfigMapWrite ha) (remove_config_map p ha existing)
  unfolding remove_config_map
  Writes-remove existing e =
      Writes-bind _ _
        (Writes-when _ _ (λ _. Writes-attempt _ (Writes-delete p config_map _ (e, (refl, refl)))))
        (λ _. Writes-record _)

  module _ (owns : OnlyOwns p) where
    owned :
        (o : ConfigMap)
        → IsSearxngMap ha o
        → (o' : ConfigMap) → p.set_controller_reference config_map ha o ≡ ok o'
        → IsSearxngMap ha o'
    owned o q o' e = subst (IsSearxngMap ha) (sym (owns config_map ha o o' e)) q

    Writes-refresh :
        (o : ConfigMap)
        → searxng_enabled ha.spec.searxng ≡ true
        → Writes (IsConfigMapWrite ha) (refresh_config_map p ha o)
    unfolding refresh_config_map
    Writes-refresh o e =
        Writes-bind _ _
          (Writes-attempt _ (Writes-update p ha config_map _ (owned _ (built ha _ e))))
          (λ _. Writes-pure _)

    Writes-put :
        (existing : Option ConfigMap)
        → searxng_enabled ha.spec.searxng ≡ true
        → Writes (IsConfigMapWrite ha) (put_config_map p ha existing)
    unfolding put_config_map
    Writes-put none e =
        Writes-bind _ _
          (Writes-attempt _ (Writes-create p ha config_map _ (owned _ (built ha "" e))))
          (λ _. Writes-record _)
    Writes-put (some o) e =
        Writes-if (config_map_data_equal (build_searxng_config_map ha "") o) _ _
          (λ _. Writes-pure done) (λ _. Writes-refresh o e)

    Writes-with_config_map :
        (existing : Option ConfigMap) → Writes (IsConfigMapWrite ha) (with_config_map p ha existing)
    unfolding with_config_map
    Writes-with_config_map existing =
        Writes-if _ _ _ (λ h. Writes-remove existing (is_off _ h))
          (λ h. Writes-put existing (is_on _ h))

    Writes-body : Writes (IsConfigMapWrite ha) (searxng_config_map_body p ha)
    unfolding searxng_config_map_body
    Writes-body = search (writes_rules, Writes-with_config_map)

    -- Where setting the controller reference changes only the owner references, each write that the
    -- reconciler adds to the log, whatever the cluster answers, is the creation or an update of
    -- SearXNG's ConfigMap, with a settings file in it, when SearXNG is enabled; or its deletion, when
    -- it is not; or a write of the status.
    pub reconcile_searxng_config_map-writes :
        (s : State W)
        → All (IsConfigMapWrite ha) s.log
        → All (IsConfigMapWrite ha) (reconcile_searxng_config_map p ha s).1.log
    unfolding reconcile_searxng_config_map
    reconcile_searxng_config_map-writes s h =
        (Writes-deferred p ha (λ st. tt) "SearXNGConfigMapReconcileFailed"
            (finish (searxng_config_map_body p ha)) (Writes-finish _ Writes-body)).at
          s h
