-- ===== src/StoragePool/Sources.antt =====
-- `ValidateLinstorStoragePoolFile` of internal/webhook/v1/storagepool.go, and the `Validate` methods of
-- api/v1/storagepool.go.
use piraeus_operator.Base.{
  ℕ, suc, String, Bool, true, false, List, [], ◌∷◌, ◌++◌, Option, none, some, ◌||◌, not,
  if◌then◌else◌, decimal, contains, starts_with, path_clean, is_rooted,
}
use piraeus_operator.StoragePool.{
  LinstorStoragePool, LinstorStoragePoolFile, LinstorStoragePoolZfs, LinstorStoragePoolSource,
  directory_or_default,
}
use piraeus_operator.StoragePool.Validation.{
  FieldError, field_error, invalid, forbidden, required, duplicate, failures, child, differ, had_no,
  had_other, warn, update_warning, same_list,
}

-- `reflect.DeepEqual` of two sources
abbrev pub same_devices : Option (List String) → Option (List String) → Bool
same_devices none none = true
same_devices none (some ds) = false
same_devices (some ds) none = false
same_devices (some ds) (some es) = same_list ds es

abbrev pub same_source : LinstorStoragePoolSource → Option LinstorStoragePoolSource → Bool
same_source s none = false
same_source s (some t) = same_devices s.host_devices t.host_devices

-- `ValidateLinstorStoragePoolFile`, where `kept` is the pool of the same thickness
unfoldable pub file_errors :
    (LinstorStoragePool → Option LinstorStoragePoolFile)
    → LinstorStoragePoolFile
    → Option LinstorStoragePool
    → String
    → String
    → List FieldError
unfolding directory_or_default path_clean
file_errors kept new old path name =
    let directory = directory_or_default new name in
    failures (
      (had_no kept old, field_error forbidden path "Cannot change storage pool type")
      ∷ (
        not (is_rooted directory) || differ (path_clean directory) directory,
        field_error invalid (child path "directory") "Not an absolute path",
      )
      ∷ [])

-- `LinstorStoragePoolZfs.Validate`, where `kept` is the pool of the same thickness
unfoldable pub zfs_errors :
    (LinstorStoragePool → Option LinstorStoragePoolZfs)
    → Option LinstorStoragePool
    → String
    → List FieldError
zfs_errors kept old path =
    failures ((had_no kept old, field_error forbidden path "Cannot change storage pool type") ∷ [])

unfoldable pub zfs_warnings :
    (LinstorStoragePool → Option LinstorStoragePoolZfs)
    → LinstorStoragePoolZfs
    → Option LinstorStoragePool
    → String
    → List String
zfs_warnings kept new old path =
    warn
      (had_other kept (λ z. not (same_list new.zpool_create_arguments z.zpool_create_arguments))
        old)
      (update_warning (child path "zpoolCreateArguments"))

-- the errors of one device, for the devices known before it
unfoldable pub device_errors : List String → String → String → List FieldError
unfolding path_clean
device_errors known path device = failures (
    (not (starts_with device "/dev/"), field_error invalid path "Path not rooted in /dev")
    ∷ (differ (path_clean device) device, field_error invalid path "Not an absolute device path")
    ∷ (contains known device, field_error duplicate path "")
    ∷ [])

-- the loop over the devices: the errors, and the devices known after it
unfoldable pub devices_from : ℕ → List String → String → List String → List FieldError × List String
devices_from j known path [] = ([], known)
devices_from j known path (d ∷ ds) =
    let (errs, after) = devices_from (suc j) (d ∷ known) path ds in
    (device_errors known (child (child path "hostDevices") (decimal j)) d ++ errs, after)

abbrev pub no_devices : String → FieldError
no_devices path = field_error required path "Must specify exactly 1 type of storage pool source"

-- a source that replaces no other
abbrev pub check_devices :
    Option (List String) → List String → String → List FieldError × List String
check_devices (some ds) known path = devices_from 0 known path ds
check_devices none known path = (no_devices path ∷ [], known)

-- `oldSP != nil && !reflect.DeepEqual(s, oldSP.Source)`
abbrev pub has_changed : LinstorStoragePoolSource → Option LinstorStoragePool → Bool
has_changed s none = false
has_changed s (some old) = not (same_source s old.source)

-- `LinstorStoragePoolSource.Validate`: its errors, and the devices known after it
unfoldable pub source_errors :
    Option LinstorStoragePoolSource
    → Option LinstorStoragePool
    → List String
    → String
    → List FieldError × List String
source_errors none old known path = ([], known)
source_errors (some s) old known path =
    if has_changed s old
    then (field_error forbidden path "Cannot change source" ∷ [], known)
    else check_devices s.host_devices known path
