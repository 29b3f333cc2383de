-- ===== src/Satellite/Backed.antt =====
-- When `reconcileStoragePools` of internal/controller/linstorsatellite_controller.go creates a storage
-- pool that LINSTOR does not know.
use piraeus_operator.Base.{
  String, Bool, true, false, List, [], ◌∷◌, ◌≡◌, ◌⊎◌, refl, inl, inr, Dict, Bool-cases, is_empty,
}
use piraeus_operator.Cluster.{Call, PoolInfo, create_pool, create_device_pool}
use piraeus_operator.Cluster.Effect.{Api, Log, M, Result, ok, err, continue, ◌>>◌, wrap_error}
use piraeus_operator.Cluster.Calls.{Grows, Grows-trans, Grows-imp, Calls, calls_rules}
use piraeus_operator.Cluster.Linstor.{LinstorApi}
use piraeus_operator.StoragePool.{LinstorStoragePool}
use piraeus_operator.LinstorHelper.Properties.{Json}
use piraeus_operator.Satellite.Probe.{storage_pool_backend_exists, missing_source_devices}
use piraeus_operator.Satellite.Pools.{
  host_devices, pool_creation, device_pool_creation, create_unless_missing, create_backed,
  fetch_pool, register_pool,
}
use piraeus_operator.Satellite.Surplus.{backend_exists-Calls, missing-Calls}

-- Nothing is created.
abbrev pub IsNoCreation : Call → Type 0
IsNoCreation (create_pool n c) = ⊥
IsNoCreation (create_device_pool n c) = ⊥
IsNoCreation _ = Unit

-- Nothing but this is created.
abbrev pub IsOnly : Call → Call → Type 0
IsOnly which (create_pool n c) = create_pool n c ≡ which
IsOnly which (create_device_pool n c) = create_device_pool n c ≡ which
IsOnly which _ = Unit

IsOnly-of_IsNoCreation : (which c : Call) → IsNoCreation c → IsOnly which c
IsOnly-of_IsNoCreation which (create_pool n c) h = elim h [ ]
IsOnly-of_IsNoCreation which (create_device_pool n c) h = elim h [ ]
IsOnly-of_IsNoCreation which _ h = tt

module _ (api : Api) (lin : LinstorApi) (json : Json) (pool_key : String) (sat : String)
    (pool : LinstorStoragePool) (expected : Dict String) (start : Log) where
  abbrev registered : Call
  registered = create_pool sat (pool_creation api lin json pool_key sat pool expected)

  abbrev built : Call
  built = create_device_pool sat (device_pool_creation api lin json pool_key sat pool expected)

  -- What a round has found out, and what it has created: nothing; the pool on its backend; or the backend
  -- from the source's devices, of which none is missing.
  abbrev pub IsBackedAfter : Result Bool × Log → Log → Type 0
  IsBackedAfter p end =
      Grows IsNoCreation start end
      ⊎ (p.0 ≡ ok true) × Grows (IsOnly registered) start end
      ⊎ (p.0 ≡ ok false)
        × (is_empty (host_devices pool) ≡ false)
        × ((missing_source_devices lin (host_devices pool) p.1).0 ≡ ok [])
        × Grows (IsOnly built) start end

  extend :
      {A : Type 0} (which : Call) (m : M A) (mid : Log)
      → Grows IsNoCreation start mid
      → Calls (IsOnly which) m
      → Grows (IsOnly which) start (m mid).1
  extend which m mid g k =
      Grows-trans start mid (m mid).1 (Grows-imp start mid (IsOnly-of_IsNoCreation which) g)
        (k.at mid)

  abbrev after_missing : Result (List String) × Log → Result PoolInfo × Log
  after_missing q =
      continue (λ _. fetch_pool api lin json pool_key sat pool)
        (continue (create_unless_missing api lin json pool_key sat pool expected)
          (wrap_error "failed to check source devices for storage pool" q))

  after_missing-cases :
      (q : Result (List String) × Log)
      → Grows IsNoCreation start q.1
      → Grows IsNoCreation start (after_missing q).1
        ⊎ (q.0 ≡ ok []) × Grows (IsOnly built) start (after_missing q).1
  after_missing-cases (err e, log) g = inl g
  after_missing-cases (ok (d ∷ ds), log) g = inl g
  after_missing-cases (ok [], log) g = inr (
    refl,
    extend built
        (create_unless_missing api lin json pool_key sat pool expected []
          >> fetch_pool api lin json pool_key sat pool)
        log g (let own : IsOnly built built = refl in search (calls_rules, own, tt) depth 12),
  )

  abbrev after_probe : Result Bool × Log → Result PoolInfo × Log
  after_probe p =
      continue
        (λ exists.
          create_backed api lin json pool_key sat pool expected exists
          >> fetch_pool api lin json pool_key sat pool)
        (wrap_error "failed to probe backend for storage pool" p)

  after_probe-IsBackedAfter :
      (p : Result Bool × Log) → Grows IsNoCreation start p.1 → IsBackedAfter p (after_probe p).1
  after_probe-IsBackedAfter (err e, log) g = inl g
  after_probe-IsBackedAfter (ok true, log) g = inr (
      inl (
        refl,
        extend registered
            (create_backed api lin json pool_key sat pool expected true
              >> fetch_pool api lin json pool_key sat pool)
            log g
            (let own : IsOnly registered registered = refl in
              search (calls_rules, own, tt) depth 12),
      ))
  after_probe-IsBackedAfter (ok false, log) g = elim (Bool-cases (is_empty (host_devices pool))) [
    | inl e ↦ rw e (inl g)
    | inr e ↦
        let missing = missing_source_devices lin (host_devices pool) in
        let g' =
          Grows-trans start log (missing log).1 g
            ((missing-Calls lin IsNoCreation (λ c. tt) (host_devices pool)).at log) in
        elim (after_missing-cases (missing log) g') [
          | inl quiet ↦ rw e (inl quiet)
          | inr (found, grown) ↦ rw e (inr (inr (refl, refl, found, grown)))
        ]
  ]

-- A storage pool that LINSTOR does not know is registered only where the probe has found its backend,
-- and is created from source devices only where the probe has found no backend, there are such devices
-- and the second probe has found each of them. Nothing else is created for it.
pub register_pool-IsBackedAfter :
    (api : Api) (lin : LinstorApi) (json : Json) (pool_key : String) (sat : String)
    (pool : LinstorStoragePool) (expected : Dict String) (log : Log)
    → IsBackedAfter api lin json pool_key sat pool expected log
        (storage_pool_backend_exists lin pool log)
        (register_pool api lin json pool_key sat pool expected log).1
unfolding register_pool
register_pool-IsBackedAfter api lin json pool_key sat pool expected log =
    after_probe-IsBackedAfter api lin json pool_key sat pool expected log
      (storage_pool_backend_exists lin pool log)
      ((backend_exists-Calls lin IsNoCreation (λ c. tt) pool).at log)
