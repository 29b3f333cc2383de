-- ===== src/StoragePool/Update.antt =====
-- What `ValidateStoragePools` of internal/webhook/v1/storagepool.go keeps when a configuration is
-- updated.
use piraeus_operator.Base.{
  ℕ, suc, String, false, List, [], ◌∷◌, Option, some, ◌≡◌, ◌⊎◌, inl, inr, arith, All, All-imp, In,
  In-of_All, decimal, ap, Option-cases, subst,
}
use piraeus_operator.StoragePool.{LinstorStoragePool, provider_kind}
use piraeus_operator.StoragePool.Validation.{FieldError, child, had_no}
use piraeus_operator.StoragePool.Lvm.{lvm_errors, lvm_thin_errors}
use piraeus_operator.StoragePool.Sources.{file_errors, zfs_errors, source_errors}
use piraeus_operator.StoragePool.Pools.{
  old_pool, present, part, pool_errors, num_pool_types, validate_from, validate_storage_pools,
}
use piraeus_operator.StoragePool.Accepted.{
  append_empty, first_passed, pool_errors-HasNoErrors, HasNoErrors, num_pool_types_lem, part_cases,
}

-- No error was found in a pool of the list.
abbrev pub IsAccepted : List LinstorStoragePool → LinstorStoragePool → Type 0
IsAccepted olds p = (path : String) × (pool_errors p (old_pool olds p.name) path ≡ [])

pub validate_from-IsAccepted :
    (olds : List LinstorStoragePool) (prefix : String) (i : ℕ) (known : List String)
    (ps : List LinstorStoragePool)
    → (validate_from olds prefix i known ps).1 ≡ []
    → All (IsAccepted olds) ps
unfolding validate_from
validate_from-IsAccepted olds prefix i known [] h = tt
validate_from-IsAccepted olds prefix i known (p ∷ ps) h =
    let path = child prefix (decimal i) in
    let (of_source, known') =
      source_errors p.source (old_pool olds p.name) known (child path "source") in
    let (h1, rest) = append_empty _ (validate_from olds prefix (suc i) known' ps).1 h in
    let (h2, _) = append_empty (pool_errors p (old_pool olds p.name) path) of_source h1 in
    ((path, h2), validate_from-IsAccepted olds prefix (suc i) known' ps rest)

-- Storage pools in which the webhook finds no error have exactly one type each.
pub validate_storage_pools-types :
    (pools olds : List LinstorStoragePool) (prefix : String)
    → (validate_storage_pools pools olds prefix).1 ≡ []
    → All (λ p. num_pool_types p ≡ 1) pools
unfolding validate_storage_pools
validate_storage_pools-types pools olds prefix h =
    All-imp (λ p (path, e). num_pool_types_lem p (old_pool olds p.name) path e) pools
      (validate_from-IsAccepted olds prefix 0 [] pools h)

-- A type that is set in a pool was set in the old one.
abbrev IsKept :
    {T : Type 0}
    → (LinstorStoragePool → Option T)
    → LinstorStoragePool
    → LinstorStoragePool
    → Type 0
IsKept f p o = (present (f p) ≡ 0) ⊎ (present (f o) ≡ 1)

had_type :
    {T : Type 0} (f : LinstorStoragePool → Option T) (o : LinstorStoragePool)
    → had_no f (some o) ≡ false
    → present (f o) ≡ 1
had_type f o h = elim (Option-cases (f o)) [ inl e ↦ ground arith | inr (t, e) ↦ ap present e ]

part-IsKept :
    {T : Type 0} (f : LinstorStoragePool → Option T) (p o : LinstorStoragePool) (seen : ℕ)
    (path : String) (errors : T → List FieldError)
    → ((t : T) → errors t ≡ [] → had_no f (some o) ≡ false)
    → part seen path errors (f p) ≡ []
    → IsKept f p o
part-IsKept f p o seen path errors k h = elim (part_cases seen path errors (f p) h) [
  | inl e ↦ inl (ap present e)
  | inr (_, (t, _, own)) ↦ inr (had_type f o (k t own))
]

module _ (p o : LinstorStoragePool) (path : String) (h : pool_errors p (some o) path ≡ []) where
  abbrev parts : HasNoErrors p (some o) path
  parts = pool_errors-HasNoErrors p (some o) path h

  thin-IsKept : IsKept (λ q. q.lvm_thin_pool) p o
  unfolding lvm_thin_errors
  thin-IsKept =
      part-IsKept (λ q. q.lvm_thin_pool) p o _ _
        (λ l. lvm_thin_errors l (some o) (child path "lvmThinPool"))
        (λ l e. first_passed (had_no (λ q. q.lvm_thin_pool) (some o)) _ _ e) parts.0

  lvm-IsKept : IsKept (λ q. q.lvm_pool) p o
  unfolding lvm_errors
  lvm-IsKept =
      part-IsKept (λ q. q.lvm_pool) p o _ _
        (λ l. lvm_errors l (some o) p.source (child path "lvmPool"))
        (λ l e. first_passed (had_no (λ q. q.lvm_pool) (some o)) _ _ e) parts.1

  file-IsKept : IsKept (λ q. q.file_pool) p o
  unfolding file_errors
  file-IsKept =
      part-IsKept (λ q. q.file_pool) p o _ _ _
        (λ f e.
          (first_passed (had_no (λ q. q.file_pool) (some o)) _ _
            (append_empty (file_errors (λ q. q.file_pool) f (some o) (child path "filePool") p.name)
              _ e).0))
        parts.2

  file_thin-IsKept : IsKept (λ q. q.file_thin_pool) p o
  unfolding file_errors
  file_thin-IsKept =
      part-IsKept (λ q. q.file_thin_pool) p o _ _ _
        (λ f e.
          (first_passed (had_no (λ q. q.file_thin_pool) (some o)) _ _
            (append_empty
              (file_errors (λ q. q.file_thin_pool) f (some o) (child path "fileThinPool") p.name) _
              e).0))
        parts.3

  zfs-IsKept : IsKept (λ q. q.zfs_pool) p o
  unfolding zfs_errors
  zfs-IsKept =
      part-IsKept (λ q. q.zfs_pool) p o _ _ _
        (λ z e. first_passed (had_no (λ q. q.zfs_pool) (some o)) _ _ e) parts.4

  zfs_thin-IsKept : IsKept (λ q. q.zfs_thin_pool) p o
  unfolding zfs_errors
  zfs_thin-IsKept =
      part-IsKept (λ q. q.zfs_thin_pool) p o _ _ _
        (λ z e. first_passed (had_no (λ q. q.zfs_thin_pool) (some o)) _ _ e) parts.5

same_kind :
    (p o : LinstorStoragePool)
    → num_pool_types p ≡ 1
    → num_pool_types o ≡ 1
    → IsKept (λ q. q.lvm_thin_pool) p o
    → IsKept (λ q. q.lvm_pool) p o
    → IsKept (λ q. q.file_pool) p o
    → IsKept (λ q. q.file_thin_pool) p o
    → IsKept (λ q. q.zfs_pool) p o
    → IsKept (λ q. q.zfs_thin_pool) p o
    → provider_kind p ≡ provider_kind o
unfolding provider_kind
same_kind p o one one' a b c d e f = ground arith

-- Updating storage pools cannot change the type of a pool: where the webhook finds no error, a pool
-- has the provider of the first old pool of its name, if that one has a single type.
pub validate_storage_pools-provider_kind :
    (pools olds : List LinstorStoragePool) (prefix : String)
    → (validate_storage_pools pools olds prefix).1 ≡ []
    → (p : LinstorStoragePool) → In p pools
    → (o : LinstorStoragePool) → old_pool olds p.name ≡ some o
    → num_pool_types o ≡ 1
    → provider_kind p ≡ provider_kind o
unfolding validate_storage_pools
validate_storage_pools-provider_kind pools olds prefix h p k o is_old one =
    let (path, e) =
      In-of_All (IsAccepted olds) pools p (validate_from-IsAccepted olds prefix 0 [] pools h) k in
    let e' : pool_errors p (some o) path ≡ [] = subst (λ q. pool_errors p q path ≡ []) is_old e in
    same_kind p o (num_pool_types_lem p (some o) path e') one (thin-IsKept p o path e')
      (lvm-IsKept p o path e') (file-IsKept p o path e') (file_thin-IsKept p o path e')
      (zfs-IsKept p o path e') (zfs_thin-IsKept p o path e')
