-- ===== src/StoragePool/Pools.antt =====
-- `ValidateStoragePools` of internal/webhook/v1/storagepool.go.
use piraeus_operator.Base.{
  ℕ, suc, ◌+◌, String, List, [], ◌∷◌, ◌++◌, Option, none, some, ◌==◌, not, decimal, find_first, eqb,
}
use piraeus_operator.StoragePool.{LinstorStoragePool}
use piraeus_operator.StoragePool.Validation.{
  FieldError, field_error, invalid, required, failures, child, is_pool_name, validate_no_source,
  validate_create_args_require_source, validate_storage_pool_type,
}
use piraeus_operator.StoragePool.Lvm.{lvm_errors, lvm_warnings, lvm_thin_errors, lvm_thin_warnings}
use piraeus_operator.StoragePool.Sources.{file_errors, zfs_errors, zfs_warnings, source_errors}

-- the first old pool of the same name
unfoldable pub old_pool : List LinstorStoragePool → String → Option LinstorStoragePool
old_pool olds name = find_first (λ p. p.name == name) olds

abbrev pub present : {T : Type 0} → Option T → ℕ
present none = 0
present (some t) = 1

-- The errors of one type of pool, where it is set: one for the number of types, then its own.
unfoldable pub part : {T : Type 0} → ℕ → String → (T → List FieldError) → Option T → List FieldError
part seen path f none = []
part seen path f (some t) = validate_storage_pool_type seen path ++ f t

abbrev pub warnings_of : {T : Type 0} → (T → List String) → Option T → List String
warnings_of f none = []
warnings_of f (some t) = f t

-- `numPoolTypes` after each of the tests
abbrev pub seen_thin : LinstorStoragePool → ℕ
seen_thin p = present p.lvm_thin_pool

abbrev pub seen_lvm : LinstorStoragePool → ℕ
seen_lvm p = seen_thin p + present p.lvm_pool

abbrev pub seen_file : LinstorStoragePool → ℕ
seen_file p = seen_lvm p + present p.file_pool

abbrev pub seen_file_thin : LinstorStoragePool → ℕ
seen_file_thin p = seen_file p + present p.file_thin_pool

abbrev pub seen_zfs : LinstorStoragePool → ℕ
seen_zfs p = seen_file_thin p + present p.zfs_pool

abbrev pub num_pool_types : LinstorStoragePool → ℕ
num_pool_types p = seen_zfs p + present p.zfs_thin_pool

-- The errors of a pool in the loop, all but its source's. `path` is the pool's.
unfoldable pub pool_errors :
    LinstorStoragePool → Option LinstorStoragePool → String → List FieldError
pool_errors p old path =
    failures (
      (
        not (is_pool_name p.name),
        field_error invalid (child path "name") "Not a valid LINSTOR Storage Pool name",
      )
      ∷ [])
    ++ part 0 (child path "lvmThinPool") (λ l. lvm_thin_errors l old (child path "lvmThinPool"))
        p.lvm_thin_pool
    ++ part (seen_thin p) (child path "lvmPool")
        (λ l. lvm_errors l old p.source (child path "lvmPool")) p.lvm_pool
    ++ part (seen_lvm p) (child path "filePool")
        (λ f.
          file_errors (λ o. o.file_pool) f old (child path "filePool") p.name
          ++ validate_no_source p.source path "filePool")
        p.file_pool
    ++ part (seen_file p) (child path "fileThinPool")
        (λ f.
          file_errors (λ o. o.file_thin_pool) f old (child path "fileThinPool") p.name
          ++ validate_no_source p.source path "fileThinPool")
        p.file_thin_pool
    ++ part (seen_file_thin p) (child path "zfsPool") (λ _. zfs_errors (λ o. o.zfs_pool) old path)
        p.zfs_pool
    ++ part (seen_zfs p) (child path "zfsThinPool")
        (λ _. zfs_errors (λ o. o.zfs_thin_pool) old path) p.zfs_thin_pool
    ++ failures (
        (
          eqb (num_pool_types p) 0,
          field_error required path "Must specify exactly 1 type of storage pool",
        )
        ∷ [])

unfoldable pub pool_warnings : LinstorStoragePool → Option LinstorStoragePool → String → List String
unfolding lvm_warnings lvm_thin_warnings zfs_warnings validate_create_args_require_source
pool_warnings p old path =
    warnings_of (λ l. lvm_thin_warnings l old p.source (child path "lvmThinPool")) p.lvm_thin_pool
    ++ warnings_of (λ l. lvm_warnings l old p.source (child path "lvmPool")) p.lvm_pool
    ++ warnings_of
        (λ z.
          zfs_warnings (λ o. o.zfs_pool) z old path
          ++ validate_create_args_require_source p.source z.zpool_create_arguments
              (child (child path "zfsPool") "zpoolCreateArguments"))
        p.zfs_pool
    ++ warnings_of
        (λ z.
          zfs_warnings (λ o. o.zfs_thin_pool) z old path
          ++ validate_create_args_require_source p.source z.zpool_create_arguments
              (child (child path "zfsThinPool") "zpoolCreateArguments"))
        p.zfs_thin_pool

-- the loop over the pools, for the devices of the pools before
unfoldable pub validate_from :
    List LinstorStoragePool
    → String
    → ℕ
    → List String
    → List LinstorStoragePool
    → List String × List FieldError
validate_from olds prefix i known [] = ([], [])
validate_from olds prefix i known (p ∷ ps) =
    let path = child prefix (decimal i) in
    let old = old_pool olds p.name in
    let (of_source, known') = source_errors p.source old known (child path "source") in
    let (warnings, errs) = validate_from olds prefix (suc i) known' ps in
    (pool_warnings p old path ++ warnings, pool_errors p old path ++ of_source ++ errs)

unfoldable pub validate_storage_pools :
    List LinstorStoragePool → List LinstorStoragePool → String → List String × List FieldError
validate_storage_pools pools olds prefix = validate_from olds prefix 0 [] pools
