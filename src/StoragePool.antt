-- ===== src/StoragePool.antt =====
-- api/v1/storagepool.go: the storage pools of a satellite. The properties of a pool are left out:
-- nothing here reads them. A missing list of arguments is an empty one.
use piraeus_operator.Base.{
  ℕ, ◌+◌, String, Bool, true, false, List, [], ◌∷◌, Option, none, some, ◌⧺◌, ◌==◌, if◌then◌else◌,
  is_some, is_empty, path_join,
}
pub mod Validation
pub mod Lvm
pub mod Sources
pub mod Pools
pub mod Accepted
pub mod Update
pub mod Devices
mod Tests

pub record LinstorStoragePoolLvm : Type 0 where
  pub volume_group : String
  pub physical_volume_create_arguments : List String
  pub volume_group_create_arguments : List String
  pub shared_space : String
  pub external_locking : Bool

pub record LinstorStoragePoolLvmThin : Type 0 where
  pub volume_group : String
  pub thin_pool : String
  pub physical_volume_create_arguments : List String
  pub volume_group_create_arguments : List String
  pub logical_volume_create_arguments : List String

pub record LinstorStoragePoolFile : Type 0 where
  pub directory : String

pub record LinstorStoragePoolZfs : Type 0 where
  pub z_pool : String
  pub zpool_create_arguments : List String

-- `none` is the nil slice.
pub record LinstorStoragePoolSource : Type 0 where
  pub host_devices : Option (List String)

pub record LinstorStoragePool : Type 0 where
  pub name : String
  pub lvm_pool : Option LinstorStoragePoolLvm
  pub lvm_thin_pool : Option LinstorStoragePoolLvmThin
  pub file_pool : Option LinstorStoragePoolFile
  pub file_thin_pool : Option LinstorStoragePoolFile
  pub zfs_pool : Option LinstorStoragePoolZfs
  pub zfs_thin_pool : Option LinstorStoragePoolZfs
  pub source : Option LinstorStoragePoolSource

-- `lclient.ProviderKind`; `no_kind` is the empty one
pub data ProviderKind : Type 0 where
  lvm lvm_thin file file_thin zfs zfs_thin no_kind : ProviderKind

-- `switch { case a != nil: ...; default: ... }`
abbrev pub case_of : {A B : Type 0} → Option A → (A → B) → B → B
case_of none f otherwise = otherwise
case_of (some a) f otherwise = f a

unfoldable pub provider_kind : LinstorStoragePool → ProviderKind
provider_kind p =
    case_of p.lvm_pool (λ _. lvm)
      (case_of p.lvm_thin_pool (λ _. lvm_thin)
        (case_of p.file_pool (λ _. file)
          (case_of p.file_thin_pool (λ _. file_thin)
            (case_of p.zfs_pool (λ _. zfs) (case_of p.zfs_thin_pool (λ _. zfs_thin) no_kind)))))

abbrev pub or_name : String → String → String
or_name s otherwise = if s == "" then otherwise else s

unfoldable pub directory_or_default : LinstorStoragePoolFile → String → String
directory_or_default f name = or_name f.directory (path_join "/var/lib/linstor-pools" name)

abbrev pub thin_pool_name : LinstorStoragePoolLvmThin → String → String
thin_pool_name p name =
    let lv_name = or_name p.thin_pool name in
    or_name p.volume_group ("linstor_" ⧺ lv_name) ⧺ "/" ⧺ lv_name

unfoldable pub pool_name : LinstorStoragePool → String
unfolding directory_or_default
pool_name p =
    case_of p.lvm_pool (λ l. or_name l.volume_group p.name)
      (case_of p.lvm_thin_pool (λ l. thin_pool_name l p.name)
        (case_of p.file_pool (λ f. directory_or_default f p.name)
          (case_of p.file_thin_pool (λ f. directory_or_default f p.name)
            (case_of p.zfs_pool (λ z. or_name z.z_pool p.name)
              (case_of p.zfs_thin_pool (λ z. or_name z.z_pool p.name) "")))))

unfoldable pub pv_create_arguments : LinstorStoragePool → List String
pv_create_arguments p =
    case_of p.lvm_pool (λ l. l.physical_volume_create_arguments)
      (case_of p.lvm_thin_pool (λ l. l.physical_volume_create_arguments) [])

unfoldable pub vg_create_arguments : LinstorStoragePool → List String
vg_create_arguments p =
    case_of p.lvm_pool (λ l. l.volume_group_create_arguments)
      (case_of p.lvm_thin_pool (λ l. l.volume_group_create_arguments) [])

unfoldable pub shared_space : LinstorStoragePool → String
shared_space p = case_of p.lvm_pool (λ l. l.shared_space) ""

unfoldable pub external_locking : LinstorStoragePool → Bool
external_locking p = case_of p.lvm_pool (λ l. l.external_locking) false

unfoldable pub lv_create_arguments : LinstorStoragePool → List String
lv_create_arguments p = case_of p.lvm_thin_pool (λ l. l.logical_volume_create_arguments) []

unfoldable pub backend_probe_command : LinstorStoragePool → List String
backend_probe_command p =
    case_of p.lvm_pool (λ _. "vgs" ∷ "--noheadings" ∷ "--options" ∷ "vg_name" ∷ [])
      (case_of p.lvm_thin_pool
        (λ _. "lvs" ∷ "--noheadings" ∷ "--separator" ∷ "/" ∷ "--options" ∷ "vg_name,lv_name" ∷ [])
        (let list_datasets = "zfs" ∷ "list" ∷ "-H" ∷ "-o" ∷ "name" ∷ [] in
          case_of p.zfs_pool (λ _. list_datasets)
            (case_of p.zfs_thin_pool (λ _. list_datasets) [])))

abbrev pub or_failmode : List String → List String
or_failmode args = if is_empty args then "-o" ∷ "failmode=continue" ∷ [] else args

unfoldable pub zpool_create_arguments : LinstorStoragePool → List String
zpool_create_arguments p =
    case_of p.zfs_pool (λ z. or_failmode z.zpool_create_arguments)
      (case_of p.zfs_thin_pool (λ z. or_failmode z.zpool_create_arguments) [])
