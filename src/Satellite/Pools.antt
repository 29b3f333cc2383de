-- ===== src/Satellite/Pools.antt =====
-- `reconcileStoragePools` of internal/controller/linstorsatellite_controller.go. What errors quote is
-- left out.
use piraeus_operator.Base.{
  String, Bool, true, false, List, [], ◌∷◌, ◌++◌, Option, none, some, ◌==◌, ◌&&◌, not,
  if◌then◌else◌, contains, is_empty, map, or_else, Dict, get, put,
}
use piraeus_operator.Cluster.{
  ApiError, PoolInfo, PoolCreation, DevicePoolCreation, plain_error, list_pools, get_pool,
  delete_pool, create_pool, create_device_pool, modify_pool,
}
use piraeus_operator.Cluster.Effect.{
  Api, M, pure, throw, ask, attempt, fail_if, fail_joined, wrapped, caught, ◌>>=◌, ◌>>◌,
}
use piraeus_operator.Cluster.Linstor.{LinstorApi}
use piraeus_operator.StoragePool.{
  LinstorStoragePool, provider_kind, pool_name, pv_create_arguments, vg_create_arguments,
  lv_create_arguments, zpool_create_arguments, shared_space, external_locking,
}
use piraeus_operator.LinstorHelper.Properties.{
  Json, GenericPropsModify, update_last_apply_property, make_properties_modification,
}
use piraeus_operator.FieldPath.{ObjectMeta, KeyRules}
use piraeus_operator.FieldPath.Properties.{LinstorNodeProperty, resolve_node_properties}
use piraeus_operator.Satellite.Probe.{storage_pool_backend_exists, missing_source_devices}

-- A pool of a satellite, with the properties that it asks for
pub record PoolSpec : Type 0 where
  pub pool : LinstorStoragePool
  pub properties : List LinstorNodeProperty

-- `linstorhelper.ManagedByProperty`
abbrev pub managed_by_property : String
managed_by_property = "Aux/piraeus.io/managed-by"

-- `vars.OperatorName`
abbrev pub operator_name : String
operator_name = "piraeus-operator"

abbrev pub collect : List ApiError → Option ApiError → List ApiError
collect errs none = errs
collect errs (some e) = errs ++ e ∷ []

-- the last one of the name
abbrev pub existing_pool : String → List PoolInfo → Option PoolInfo
existing_pool name [] = none
existing_pool name (p ∷ ps) =
    let rest = existing_pool name ps in
    elim rest [ some q ↦ some q | none ↦ if p.storage_pool_name == name then some p else none ]

-- The devices of a source; no source and an empty list are alike.
abbrev pub host_devices : LinstorStoragePool → List String
host_devices pool = elim pool.source [
  | none ↦ []
  | some s ↦ elim s.host_devices [ none ↦ [] | some ds ↦ ds ]
]

-- LINSTOR's key for the name of a pool's backend
module _ (api : Api) (lin : LinstorApi) (json : Json) (pool_key : String) (sat : String) where
  abbrev pub pool_creation : LinstorStoragePool → Dict String → PoolCreation
  pool_creation pool expected = record {
    storage_pool_name = pool.name;
    kind = provider_kind pool;
    props = update_last_apply_property json expected;
    free_space_mgr_name = shared_space pool;
    shared_space = shared_space pool;
    external_locking = external_locking pool;
  }

  abbrev pub device_pool_creation : LinstorStoragePool → Dict String → DevicePoolCreation
  device_pool_creation pool expected = record {
    kind = provider_kind pool;
    backend_name = pool_name pool;
    device_paths = host_devices pool;
    pv_create_arguments = pv_create_arguments pool;
    vg_create_arguments = vg_create_arguments pool;
    lv_create_arguments = lv_create_arguments pool;
    zpool_create_arguments = zpool_create_arguments pool;
    storage_pool_name = pool.name;
    props = update_last_apply_property json expected;
  }

  -- the case of a backend that exists
  abbrev pub register_existing : LinstorStoragePool → Dict String → M (Unit {0})
  register_existing pool expected = do
    failed ← attempt api (create_pool sat (pool_creation pool expected))
    wrapped "failed to create storage pool" (fail_if failed)

  abbrev pub create_unless_missing : LinstorStoragePool → Dict String → List String → M (Unit {0})
  create_unless_missing pool expected (d ∷ ds) =
      throw (plain_error "storage pool not created: source device(s) do not exist on node")
  create_unless_missing pool expected [] = do
    failed ← attempt api (create_device_pool sat (device_pool_creation pool expected))
    wrapped "failed to create device pool for storage pool" (fail_if failed)

  -- the case of a backend to create
  abbrev pub create_from_devices : LinstorStoragePool → Dict String → M (Unit {0})
  create_from_devices pool expected =
      wrapped "failed to check source devices for storage pool"
        (missing_source_devices lin (host_devices pool))
      >>= create_unless_missing pool expected

  -- the switch
  abbrev pub create_backed : LinstorStoragePool → Dict String → Bool → M (Unit {0})
  create_backed pool expected true = register_existing pool expected
  create_backed pool expected false =
      if is_empty (host_devices pool)
      then throw (plain_error "storage pool not registered: backend does not exist on node yet")
      else create_from_devices pool expected

  abbrev pub probed : LinstorStoragePool → M Bool
  probed pool =
      wrapped "failed to probe backend for storage pool" (storage_pool_backend_exists lin pool)

  abbrev pub fetch_pool : LinstorStoragePool → M PoolInfo
  fetch_pool pool =
      wrapped "failed to get storage pool" (ask (get_pool sat pool.name) (lin.pool sat pool.name))

  -- a pool that LINSTOR does not know yet
  unfoldable pub register_pool : LinstorStoragePool → Dict String → M PoolInfo
  register_pool pool expected = do
    exists ← probed pool
    create_backed pool expected exists
    fetch_pool pool

  abbrev pub find_or_register : LinstorStoragePool → Dict String → Option PoolInfo → M PoolInfo
  find_or_register pool expected (some p) = pure p
  find_or_register pool expected none = register_pool pool expected

  abbrev pub modify : PoolInfo → Option GenericPropsModify → M (Unit {0})
  modify p none = pure tt
  modify p (some m) = do
    failed ←
        attempt api (modify_pool p.node_name p.storage_pool_name m.override_props m.delete_props)
    wrapped "failed to modify storage pool" (fail_if failed)

  abbrev pub align_pool : Dict String → PoolInfo → M (Unit {0})
  align_pool expected p = modify p (make_properties_modification json p.props expected)

  -- a round of the first loop
  unfoldable pub reconcile_pool : List PoolInfo → LinstorStoragePool → Dict String → M (Unit {0})
  reconcile_pool current pool expected =
      find_or_register pool expected (existing_pool pool.name current) >>= align_pool expected

  -- `expectedProperties`
  abbrev pub expected_properties : LinstorStoragePool → Dict String → Dict String
  expected_properties pool resolved =
      put (put resolved managed_by_property operator_name) pool_key (pool_name pool)

  -- a pool that LINSTOR has, is the operator's, and is not asked for any more
  abbrev pub is_surplus : List PoolSpec → PoolInfo → Bool
  is_surplus specs p =
      or_else "" (get p.props managed_by_property) == operator_name
      && not (contains (map (λ s. s.pool.name) specs) p.storage_pool_name)

  abbrev pub remove_pool : PoolInfo → M (Unit {0})
  remove_pool p = do
    failed ← attempt api (delete_pool sat p.storage_pool_name)
    wrapped "failed to delete storage pool" (fail_if failed)

  -- the second loop
  unfoldable pub delete_surplus : List PoolSpec → List ApiError → List PoolInfo → M (Unit {0})
  delete_surplus specs errs [] = fail_joined errs
  delete_surplus specs errs (p ∷ ps) =
      if is_surplus specs p
      then (do failed ← caught (remove_pool p); delete_surplus specs (collect errs failed) ps)
      else delete_surplus specs errs ps

  module _ (rules : KeyRules) (node : ObjectMeta) (specs : List PoolSpec)
      (current : List PoolInfo) where
    -- the first loop, and what follows it. An error in the properties ends both.
    unfoldable pub reconcile_from : List ApiError → List PoolSpec → M (Unit {0})
    reconcile_from errs [] = delete_surplus specs errs current
    reconcile_from errs (s ∷ rest) = do
      resolved ← λ log. (resolve_node_properties rules node s.properties, log)
      failed ← caught (reconcile_pool current s.pool (expected_properties s.pool resolved))
      reconcile_from (collect errs failed) rest

  unfoldable pub reconcile_storage_pools : KeyRules → ObjectMeta → List PoolSpec → M (Unit {0})
  reconcile_storage_pools rules node specs =
      ask (list_pools sat) (lin.pools sat)
      >>= (λ current. reconcile_from rules node specs current [] specs)
