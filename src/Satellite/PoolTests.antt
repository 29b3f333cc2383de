-- ===== src/Satellite/PoolTests.antt =====
-- The storage pools of internal/controller/linstorsatellite_controller.go on a small cluster.
use piraeus_operator.Base.{true, false, [], ◌∷◌, none, some, ◌≡◌, refl, lines, trim_space}
use piraeus_operator.Cluster.{PoolInfo}
use piraeus_operator.Cluster.Effect.{ok}
use piraeus_operator.Cluster.Calls.{Grows}
use piraeus_operator.Cluster.Linstor.{LinstorApi}
use piraeus_operator.StoragePool.{LinstorStoragePool, pool_name, backend_probe_command}
use piraeus_operator.LinstorHelper.Properties.Codec.{codec}
use piraeus_operator.FieldPath.Sample.{lax, node}
use piraeus_operator.Evacuation.Sample.{api}
use piraeus_operator.Satellite.Sample.{lin}
use piraeus_operator.Satellite.Probe.{storage_pool_backend_exists}
use piraeus_operator.Satellite.Pools.{PoolSpec, reconcile_storage_pools, register_pool}
use piraeus_operator.Satellite.Surplus.{IsSurplusOnly, reconcile_storage_pools-IsSurplusOnly}
use piraeus_operator.Satellite.Backed.{IsBackedAfter, register_pool-IsBackedAfter}

abbrev known : PoolInfo
known = record {
  storage_pool_name = "old";
  node_name = "n1";
  props = ("Aux/piraeus.io/managed-by", "piraeus-operator") ∷ [];
}

abbrev foreign : PoolInfo
foreign = record { storage_pool_name = "mine"; node_name = "n1"; props = [] }

-- two pools are known, and the node has the volume group vg1
abbrev with_pools : LinstorApi
with_pools = record lin {
  pools = λ node log. ok (known ∷ foreign ∷ []);
  output = λ command log. record { stdout = "  vg1\n"; failed = none; is_exit_code = false };
}

abbrev pool : LinstorStoragePool
pool = record {
  name = "fast";
  lvm_pool = some (record {
    volume_group = "vg1";
    physical_volume_create_arguments = [];
    volume_group_create_arguments = [];
    shared_space = "";
    external_locking = false;
  });
  lvm_thin_pool = none;
  file_pool = none;
  file_thin_pool = none;
  zfs_pool = none;
  zfs_thin_pool = none;
  source = none;
}

abbrev spec : PoolSpec
spec = record { pool = pool; properties = [] }

reconcile_storage_pools-IsSurplusOnly_example :
    Grows
      (IsSurplusOnly api with_pools codec "Key" "n1" (spec ∷ []) (known ∷ foreign ∷ []))
      []
      (reconcile_storage_pools api with_pools codec "Key" "n1" lax node (spec ∷ []) []).1
reconcile_storage_pools-IsSurplusOnly_example =
    reconcile_storage_pools-IsSurplusOnly api with_pools codec "Key" "n1" lax node (spec ∷ []) []
      (known ∷ foreign ∷ []) refl

register_pool-IsBackedAfter_example :
    IsBackedAfter api with_pools codec "Key" "n1" pool [] []
      (storage_pool_backend_exists with_pools pool [])
      (register_pool api with_pools codec "Key" "n1" pool [] []).1
register_pool-IsBackedAfter_example =
    register_pool-IsBackedAfter api with_pools codec "Key" "n1" pool [] []

found : (storage_pool_backend_exists with_pools pool []).0 ≡ ok true
unfolding storage_pool_backend_exists backend_probe_command pool_name lines trim_space
found = refl
