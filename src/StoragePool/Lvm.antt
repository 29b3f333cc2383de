-- ===== src/StoragePool/Lvm.antt =====
-- `validateLinstorStoragePoolLvmThin` and `validateLinstorStoragePoolLvm` of
-- internal/webhook/v1/storagepool.go, the errors and the warnings apart.
use piraeus_operator.Base.{String, List, [], ◌∷◌, ◌++◌, Option, ◌==◌, ◌&&◌, ◌||◌, not, is_some}
use piraeus_operator.StoragePool.{
  LinstorStoragePool, LinstorStoragePoolLvm, LinstorStoragePoolLvmThin, LinstorStoragePoolSource,
}
use piraeus_operator.StoragePool.Validation.{
  FieldError, field_error, invalid, forbidden, failures, child, is_vg_name, is_space_chars,
  has_letter, same_list, had_no, had_other, differ, differ_bool, warn, update_warning,
  validate_create_args_require_source,
}

unfoldable pub lvm_thin_errors :
    LinstorStoragePoolLvmThin → Option LinstorStoragePool → String → List FieldError
lvm_thin_errors new old path = failures (
    (
      had_no (λ p. p.lvm_thin_pool) old,
      field_error forbidden path "Cannot change storage pool type",
    )
    ∷ (
      differ new.volume_group "" && not (is_vg_name new.volume_group),
      field_error invalid (child path "volumeGroup") "Not a valid VG name",
    )
    ∷ (
      had_other (λ p. p.lvm_thin_pool) (λ l. differ new.volume_group l.volume_group) old,
      field_error forbidden (child path "volumeGroup") "Cannot change VG name",
    )
    ∷ (
      differ new.thin_pool "" && not (is_vg_name new.thin_pool),
      field_error invalid (child path "thinPool") "Not a valid thinpool LV name",
    )
    ∷ (
      had_other (λ p. p.lvm_thin_pool) (λ l. differ new.thin_pool l.thin_pool) old,
      field_error forbidden (child path "thinPool") "Cannot change thinpool LV name",
    )
    ∷ [])

unfoldable pub lvm_thin_warnings :
    LinstorStoragePoolLvmThin
    → Option LinstorStoragePool
    → Option LinstorStoragePoolSource
    → String
    → List String
unfolding validate_create_args_require_source
lvm_thin_warnings new old source path =
    let pv = child path "physicalVolumeCreateArguments" in
    let vg = child path "volumeGroupCreateArguments" in
    let lv = child path "logicalVolumeCreateArguments" in
    validate_create_args_require_source source new.physical_volume_create_arguments pv
    ++ validate_create_args_require_source source new.volume_group_create_arguments vg
    ++ validate_create_args_require_source source new.logical_volume_create_arguments lv
    ++ warn
        (had_other (λ p. p.lvm_thin_pool)
          (λ l.
            not (same_list new.physical_volume_create_arguments l.physical_volume_create_arguments))
          old)
        (update_warning pv)
    ++ warn
        (had_other (λ p. p.lvm_thin_pool)
          (λ l. not (same_list new.volume_group_create_arguments l.volume_group_create_arguments))
          old)
        (update_warning vg)
    ++ warn
        (had_other (λ p. p.lvm_thin_pool)
          (λ l.
            not (same_list new.logical_volume_create_arguments l.logical_volume_create_arguments))
          old)
        (update_warning lv)

unfoldable pub lvm_errors :
    LinstorStoragePoolLvm
    → Option LinstorStoragePool
    → Option LinstorStoragePoolSource
    → String
    → List FieldError
lvm_errors new old source path = failures (
    (had_no (λ p. p.lvm_pool) old, field_error forbidden path "Cannot change storage pool type")
    ∷ (
      differ new.volume_group "" && not (is_vg_name new.volume_group),
      field_error invalid (child path "volumeGroup") "Not a valid VG name",
    )
    ∷ (
      had_other (λ p. p.lvm_pool) (λ l. differ new.volume_group l.volume_group) old,
      field_error forbidden (child path "volumeGroup") "Cannot change VG name",
    )
    ∷ (
      differ new.shared_space ""
          && (not (is_space_chars new.shared_space) || not (has_letter new.shared_space)),
      field_error invalid (child path "sharedSpace") "Not a valid shared storage pool name",
    )
    ∷ (
      differ new.shared_space "" && is_some source,
      field_error forbidden (child path "sharedSpace")
          "Cannot create a shared VG from source devices, it must be set up manually",
    )
    ∷ (
      new.external_locking && new.shared_space == "",
      field_error forbidden (child path "externalLocking") "External locking requires a shared VG",
    )
    ∷ (
      had_other (λ p. p.lvm_pool) (λ l. differ new.shared_space l.shared_space) old,
      field_error forbidden (child path "sharedSpace") "Cannot change shared space name",
    )
    ∷ (
      had_other (λ p. p.lvm_pool) (λ l. differ_bool new.external_locking l.external_locking) old,
      field_error forbidden (child path "externalLocking") "Cannot change external locking",
    )
    ∷ [])

unfoldable pub lvm_warnings :
    LinstorStoragePoolLvm
    → Option LinstorStoragePool
    → Option LinstorStoragePoolSource
    → String
    → List String
unfolding validate_create_args_require_source
lvm_warnings new old source path =
    let pv = child path "physicalVolumeCreateArguments" in
    let vg = child path "volumeGroupCreateArguments" in
    validate_create_args_require_source source new.physical_volume_create_arguments pv
    ++ validate_create_args_require_source source new.volume_group_create_arguments vg
    ++ warn
        (had_other (λ p. p.lvm_pool)
          (λ l.
            not (same_list new.physical_volume_create_arguments l.physical_volume_create_arguments))
          old)
        (update_warning pv)
    ++ warn
        (had_other (λ p. p.lvm_pool)
          (λ l. not (same_list new.volume_group_create_arguments l.volume_group_create_arguments))
          old)
        (update_warning vg)
