-- ===== src/Satellite/Surplus.antt =====
-- Which storage pools `reconcileStoragePools` of internal/controller/linstorsatellite_controller.go
-- deletes.
use piraeus_operator.Base.{
  ◌==◌, ◌&&◌, not, String, Bool, true, false, List, [], ◌∷◌, ◌++◌, Option, none, some, ◌≡◌, refl,
  inl, inr, In, Dict, Bool-cases, get, contains, map, Option-cases, arith, ◌∙◌, ap, eq_iff,
}
use piraeus_operator.Cluster.{
  lost_node, delete_node, restore_node, evacuate, update_satellite, Call, ApiError, PoolInfo,
  delete_pool, list_pools, exec,
}
use piraeus_operator.Cluster.Effect.{Api, Log, ok, caught}
use piraeus_operator.Cluster.Calls.{
  Grows, Grows-trans, Calls, Calls-bind, Calls-look, calls_rules, Calls-caught,
}
use piraeus_operator.Cluster.Linstor.{LinstorApi}
use piraeus_operator.StoragePool.{LinstorStoragePool, backend_probe_command}
use piraeus_operator.LinstorHelper.Properties.{Json, GenericPropsModify}
use piraeus_operator.FieldPath.{ObjectMeta, KeyRules}
use piraeus_operator.FieldPath.Properties.{resolve_node_properties}
use piraeus_operator.Satellite.Probe.{probe, storage_pool_backend_exists, missing_source_devices}
use piraeus_operator.Satellite.Pools.{
  PoolSpec, collect, create_unless_missing, create_backed, register_pool, find_or_register, modify,
  reconcile_pool, is_surplus, remove_pool, delete_surplus, reconcile_from, reconcile_storage_pools,
  managed_by_property, operator_name,
}

module _ (lin : LinstorApi) (P : Call → Type 0)
    (probes : (command : List String) → P (exec command)) where
  probe-Calls :
      (pool : LinstorStoragePool) (command : List String) → Calls P (probe lin pool command)
  probe-Calls pool [] = search calls_rules
  probe-Calls pool (c ∷ cs) = search (calls_rules, probes)

  pub backend_exists-Calls :
      (pool : LinstorStoragePool) → Calls P (storage_pool_backend_exists lin pool)
  unfolding storage_pool_backend_exists
  backend_exists-Calls pool = probe-Calls pool (backend_probe_command pool)

  pub missing-Calls : (ds : List String) → Calls P (missing_source_devices lin ds)
  unfolding missing_source_devices
  missing-Calls [] = search calls_rules
  missing-Calls (d ∷ ds) = search (calls_rules, probes)

module _ (api : Api) (lin : LinstorApi) (json : Json) (pool_key : String) (sat : String) where
  -- A pool is deleted only on this satellite, and only if LINSTOR listed it as the operator's and it is
  -- not asked for. No node is evacuated, restored or removed, and no satellite changed.
  abbrev pub IsSurplusOnly : List PoolSpec → List PoolInfo → Call → Type 0
  IsSurplusOnly specs current (delete_pool n name) =
      (n ≡ sat)
      × (p : PoolInfo) × In p current
      × (p.storage_pool_name ≡ name)
      × (get p.props managed_by_property ≡ some operator_name)
      × (contains (map (λ s. s.pool.name) specs) name ≡ false)
  IsSurplusOnly specs current (lost_node n) = ⊥
  IsSurplusOnly specs current (delete_node n) = ⊥
  IsSurplusOnly specs current (restore_node n) = ⊥
  IsSurplusOnly specs current (evacuate n) = ⊥
  IsSurplusOnly specs current (update_satellite n l) = ⊥
  IsSurplusOnly specs current _ = Unit

  module _ (specs : List PoolSpec) (current : List PoolInfo) where
    abbrev P : Call → Type 0
    P = IsSurplusOnly specs current

    probes : (command : List String) → P (exec command)
    probes command = tt

    create_unless_missing-Calls :
        (pool : LinstorStoragePool) (expected : Dict String) (missing : List String)
        → Calls P (create_unless_missing api lin json pool_key sat pool expected missing)
    create_unless_missing-Calls pool expected [] = search (calls_rules, tt)
    create_unless_missing-Calls pool expected (d ∷ ds) = search calls_rules

    create_backed-Calls :
        (pool : LinstorStoragePool) (expected : Dict String) (b : Bool)
        → Calls P (create_backed api lin json pool_key sat pool expected b)
    create_backed-Calls pool expected true = search (calls_rules, tt)
    create_backed-Calls pool expected false =
        search (calls_rules, missing-Calls lin P probes, create_unless_missing-Calls) depth 12

    find_or_register-Calls :
        (pool : LinstorStoragePool) (expected : Dict String) (o : Option PoolInfo)
        → Calls P (find_or_register api lin json pool_key sat pool expected o)
    unfolding register_pool
    find_or_register-Calls pool expected none =
        search (calls_rules, backend_exists-Calls lin P probes, create_backed-Calls, tt) depth 12
    find_or_register-Calls pool expected (some p) = search calls_rules

    modify-Calls :
        (p : PoolInfo) (o : Option GenericPropsModify)
        → Calls P (modify api lin json pool_key sat p o)
    modify-Calls p none = search calls_rules
    modify-Calls p (some m) = search (calls_rules, tt)

    reconcile_pool-Calls :
        (pool : LinstorStoragePool) (expected : Dict String)
        → Calls P (reconcile_pool api lin json pool_key sat current pool expected)
    unfolding reconcile_pool
    reconcile_pool-Calls pool expected = search (calls_rules, find_or_register-Calls, modify-Calls)

    surplus :
        (p : PoolInfo)
        → is_surplus api lin json pool_key sat specs p ≡ true
        → (get p.props managed_by_property ≡ some operator_name)
          × (contains (map (λ s. s.pool.name) specs) p.storage_pool_name ≡ false)
    surplus p e = elim (Option-cases (get p.props managed_by_property)) [
      | inl h ↦
          let e' : ("" == operator_name
                && not (contains (map (λ s. s.pool.name) specs) p.storage_pool_name))
              ≡ true =
            rw h at e in
          absurd (ground arith)
      | inr (v, h) ↦
          let e' : (v == operator_name
                && not (contains (map (λ s. s.pool.name) specs) p.storage_pool_name))
              ≡ true =
            rw h at e in
          let own : (v == operator_name) ≡ true = ground arith in
          (h ∙ ap some ((eq_iff v operator_name).0 own), ground arith)
    ]

    delete_surplus-Calls :
        (errs : List ApiError) (ps : List PoolInfo)
        → ((q : PoolInfo) → In q ps → In q current)
        → Calls P (delete_surplus api lin json pool_key sat specs errs ps)
    unfolding delete_surplus
    delete_surplus-Calls errs [] among = search calls_rules
    delete_surplus-Calls errs (p ∷ ps) among =
        elim (Bool-cases (is_surplus api lin json pool_key sat specs p)) [
          | inl e ↦
              let allowed : P (delete_pool sat p.storage_pool_name) =
                (refl, p, among p (inl refl), refl, (surplus p e).0, (surplus p e).1) in
              rw (delete_surplus, e)
                (Calls-bind (caught (remove_pool api lin json pool_key sat p))
                  (λ failed.
                    delete_surplus api lin json pool_key sat specs (collect errs failed) ps)
                  (Calls-caught (remove_pool api lin json pool_key sat p)
                    (search (calls_rules, allowed)))
                  (λ failed.
                    delete_surplus-Calls (collect errs failed) ps (λ q i. among q (inr i))))
          | inr e ↦ rw (delete_surplus, e) (delete_surplus-Calls errs ps (λ q i. among q (inr i)))
        ]

    reconcile_from-Calls :
        (rules : KeyRules) (node : ObjectMeta) (errs : List ApiError) (rest : List PoolSpec)
        → Calls P (reconcile_from api lin json pool_key sat rules node specs current errs rest)
    unfolding reconcile_from
    reconcile_from-Calls rules node errs [] = delete_surplus-Calls errs current (λ q i. i)
    reconcile_from-Calls rules node errs (s ∷ rest) =
        Calls-bind (λ log. (resolve_node_properties rules node s.properties, log)) _ (Calls-look _)
          (λ resolved.
            Calls-bind _
              (λ failed.
                reconcile_from api lin json pool_key sat rules node specs current
                  (collect errs failed) rest)
              (Calls-caught _ (reconcile_pool-Calls s.pool _))
              (λ failed. reconcile_from-Calls rules node (collect errs failed) rest))

  -- The reconciliation of a satellite's storage pools deletes a pool only on that satellite, and only if
  -- LINSTOR listed it with the operator's name in its properties and the satellite does not ask for a
  -- pool of that name. It evacuates, restores and removes no node, and changes no satellite.
  pub reconcile_storage_pools-IsSurplusOnly :
      (rules : KeyRules) (node : ObjectMeta) (specs : List PoolSpec) (log : Log)
      (current : List PoolInfo)
      → lin.pools sat log ≡ ok current
      → Grows
          (IsSurplusOnly specs current)
          log
          (reconcile_storage_pools api lin json pool_key sat rules node specs log).1
  unfolding reconcile_storage_pools
  reconcile_storage_pools-IsSurplusOnly rules node specs log current e =
      let next = log ++ list_pools sat ∷ [] in
      rw (reconcile_storage_pools, e)
        (Grows-trans log next _ (list_pools sat ∷ [], refl, (tt, tt))
          ((reconcile_from-Calls specs current rules node [] specs).at next))
