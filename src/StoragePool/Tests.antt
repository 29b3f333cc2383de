-- ===== src/StoragePool/Tests.antt =====
-- internal/webhook/v1/storagepool.go on two small configurations, and its theorems there.
use piraeus_operator.Base.{
  String, false, List, [], ◌∷◌, none, some, ◌≡◌, refl, inl, All, path_clean, path_join, decimal,
}
use piraeus_operator.StoragePool.{
  LinstorStoragePool, provider_kind, pool_name, directory_or_default,
}
use piraeus_operator.StoragePool.Validation.{
  field_error, duplicate, validate_no_source, validate_create_args_require_source,
  validate_storage_pool_type,
}
use piraeus_operator.StoragePool.Lvm.{lvm_errors, lvm_warnings, lvm_thin_errors, lvm_thin_warnings}
use piraeus_operator.StoragePool.Sources.{
  file_errors, zfs_errors, zfs_warnings, source_errors, devices_from, device_errors,
}
use piraeus_operator.StoragePool.Pools.{
  old_pool, num_pool_types, pool_errors, pool_warnings, part, validate_from, validate_storage_pools,
}
use piraeus_operator.StoragePool.Update.{
  validate_storage_pools-types, validate_storage_pools-provider_kind,
}
use piraeus_operator.StoragePool.Devices.{
  IsDevice, AreDistinct, devices, validate_storage_pools-AreDistinct,
}

abbrev lvm_on : String → String → LinstorStoragePool
lvm_on name device = record {
  name = name;
  lvm_pool = some (record {
    volume_group = "vg0";
    physical_volume_create_arguments = [];
    volume_group_create_arguments = [];
    shared_space = "";
    external_locking = false;
  });
  lvm_thin_pool = none;
  file_pool = none;
  file_thin_pool = none;
  zfs_pool = none;
  zfs_thin_pool = none;
  source = some (record { host_devices = some (device ∷ []) });
}

abbrev file_at : String → LinstorStoragePool
file_at directory = record {
  name = "pool-file";
  lvm_pool = none;
  lvm_thin_pool = none;
  file_pool = some (record { directory = directory });
  file_thin_pool = none;
  zfs_pool = none;
  zfs_thin_pool = none;
  source = none;
}

abbrev old_pools : List LinstorStoragePool
old_pools = lvm_on "pool-a" "/dev/sdb" ∷ file_at "" ∷ []

abbrev new_pools : List LinstorStoragePool
new_pools = file_at "/srv/linstor" ∷ lvm_on "pool-a" "/dev/sdb" ∷ []

accepted : (validate_storage_pools new_pools old_pools "spec.storagePools").1 ≡ []
unfolding validate_storage_pools validate_from pool_errors pool_warnings part old_pool lvm_errors
    lvm_warnings lvm_thin_errors lvm_thin_warnings file_errors zfs_errors zfs_warnings source_errors
    devices_from device_errors validate_no_source validate_create_args_require_source
    validate_storage_pool_type directory_or_default path_clean path_join
accepted = refl

-- The second pool cannot have the first one's device.
shared_device :
    (validate_storage_pools
      (lvm_on "pool-a" "/dev/sdb" ∷ lvm_on "pool-b" "/dev/sdb" ∷ [])
      []
      "spec.storagePools").1
    ≡ field_error duplicate "spec.storagePools.1.source.hostDevices.0" "" ∷ []
unfolding validate_storage_pools validate_from pool_errors pool_warnings part old_pool lvm_errors
    lvm_warnings lvm_thin_errors lvm_thin_warnings file_errors zfs_errors zfs_warnings source_errors
    devices_from device_errors validate_no_source validate_create_args_require_source
    validate_storage_pool_type path_clean decimal
shared_device = refl

default_directory : pool_name (file_at "") ≡ "/var/lib/linstor-pools/pool-file"
unfolding pool_name directory_or_default path_join path_clean
default_directory = refl

validate_storage_pools-types_example : All (λ p. num_pool_types p ≡ 1) new_pools
validate_storage_pools-types_example =
    validate_storage_pools-types new_pools old_pools "spec.storagePools" accepted

found_old : old_pool old_pools "pool-file" ≡ some (file_at "")
unfolding old_pool
found_old = refl

validate_storage_pools-provider_kind_example :
    provider_kind (file_at "/srv/linstor") ≡ provider_kind (file_at "")
validate_storage_pools-provider_kind_example =
    validate_storage_pools-provider_kind new_pools old_pools "spec.storagePools" accepted
      (file_at "/srv/linstor") (inl refl) (file_at "") found_old refl

validate_storage_pools-AreDistinct_example :
    All IsDevice (devices new_pools) × AreDistinct (devices new_pools)
validate_storage_pools-AreDistinct_example =
    validate_storage_pools-AreDistinct new_pools old_pools "spec.storagePools" accepted
