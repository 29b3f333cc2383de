-- ===== src/StoragePool/Accepted.antt =====
-- What `ValidateStoragePools` of internal/webhook/v1/storagepool.go guarantees for pools in which it
-- finds no error.
use piraeus_operator.Base.{
  ℕ, String, Bool, true, false, List, [], ◌∷◌, ◌++◌, Option, none, some, ◌≡◌, refl, ◌⊎◌, inl, inr,
  arith, leb, eqb, ap,
}
use piraeus_operator.StoragePool.{LinstorStoragePool}
use piraeus_operator.StoragePool.Validation.{
  FieldError, failures, validate_storage_pool_type, child, validate_no_source,
}
use piraeus_operator.StoragePool.Lvm.{lvm_errors, lvm_thin_errors}
use piraeus_operator.StoragePool.Sources.{file_errors, zfs_errors}
use piraeus_operator.StoragePool.Pools.{
  present, part, pool_errors, num_pool_types, seen_thin, seen_lvm, seen_file, seen_file_thin,
  seen_zfs,
}

pub append_empty : {A : Type 0} (xs ys : List A) → xs ++ ys ≡ [] → (xs ≡ []) × (ys ≡ [])
append_empty [] ys h = (refl, h)
append_empty (x ∷ xs) ys h = ground (arith)

-- No test of a list failed.
abbrev pub NoneFailed : List (Bool × FieldError) → Type 0
NoneFailed [] = Unit
NoneFailed ((b, e) ∷ rest) = (b ≡ false) × NoneFailed rest

pub failures-NoneFailed :
    (tests : List (Bool × FieldError)) → failures tests ≡ [] → NoneFailed tests
failures-NoneFailed [] h = tt
failures-NoneFailed ((true, e) ∷ rest) h = ground (arith)
failures-NoneFailed ((false, e) ∷ rest) h = (refl, failures-NoneFailed rest h)

-- The same for the first test.
pub first_passed :
    (b : Bool) (e : FieldError) (rest : List (Bool × FieldError))
    → failures ((b, e) ∷ rest) ≡ []
    → b ≡ false
first_passed b e rest h = (failures-NoneFailed ((b, e) ∷ rest) h).0

-- The same for one test.
pub test_passed : (b : Bool) (e : FieldError) → failures ((b, e) ∷ []) ≡ [] → b ≡ false
test_passed true e h = ground arith
test_passed false e h = refl

-- A type without errors is not set, or is the first that is set and has no errors of its own.
pub part_cases :
    {T : Type 0} (seen : ℕ) (path : String) (f : T → List FieldError) (o : Option T)
    → part seen path f o ≡ []
    → (o ≡ none) ⊎ (seen ≡ 0) × ((t : T) × (o ≡ some t) × (f t ≡ []))
unfolding part validate_storage_pool_type
part_cases seen path f none h = inl refl
part_cases seen path f (some t) h =
    let (first, own) = append_empty (validate_storage_pool_type seen path) (f t) h in
    let is_first = test_passed (leb 1 seen) _ first in inr (ground arith, (t, refl, own))

module _ (p : LinstorStoragePool) (old : Option LinstorStoragePool) (path : String) where
  abbrev thin_part : List FieldError
  thin_part =
      part 0 (child path "lvmThinPool") (λ l. lvm_thin_errors l old (child path "lvmThinPool"))
        p.lvm_thin_pool

  abbrev lvm_part : List FieldError
  lvm_part =
      part (seen_thin p) (child path "lvmPool")
        (λ l. lvm_errors l old p.source (child path "lvmPool")) p.lvm_pool

  abbrev file_part : List FieldError
  file_part =
      part (seen_lvm p) (child path "filePool")
        (λ f.
          file_errors (λ o. o.file_pool) f old (child path "filePool") p.name
          ++ validate_no_source p.source path "filePool")
        p.file_pool

  abbrev file_thin_part : List FieldError
  file_thin_part =
      part (seen_file p) (child path "fileThinPool")
        (λ f.
          file_errors (λ o. o.file_thin_pool) f old (child path "fileThinPool") p.name
          ++ validate_no_source p.source path "fileThinPool")
        p.file_thin_pool

  abbrev zfs_part : List FieldError
  zfs_part =
      part (seen_file_thin p) (child path "zfsPool") (λ _. zfs_errors (λ o. o.zfs_pool) old path)
        p.zfs_pool

  abbrev zfs_thin_part : List FieldError
  zfs_thin_part =
      part (seen_zfs p) (child path "zfsThinPool") (λ _. zfs_errors (λ o. o.zfs_thin_pool) old path)
        p.zfs_thin_pool

  -- No part of a pool has errors, and there is a part.
  abbrev pub HasNoErrors : Type 0
  HasNoErrors =
      (thin_part ≡ [])
      × (lvm_part ≡ [])
      × (file_part ≡ [])
      × (file_thin_part ≡ [])
      × (zfs_part ≡ [])
      × (zfs_thin_part ≡ [])
      × (eqb (num_pool_types p) 0 ≡ false)

  pub pool_errors-HasNoErrors : pool_errors p old path ≡ [] → HasNoErrors
  unfolding pool_errors
  pool_errors-HasNoErrors h =
      let (h1, h0) = append_empty _ _ h in
      let (h2, zfs_thin) = append_empty _ zfs_thin_part h1 in
      let (h3, zfs) = append_empty _ zfs_part h2 in
      let (h4, file_thin) = append_empty _ file_thin_part h3 in
      let (h5, file) = append_empty _ file_part h4 in
      let (h6, lvm) = append_empty _ lvm_part h5 in
      let (_, thin) = append_empty _ thin_part h6 in
      let some_type = test_passed (eqb (num_pool_types p) 0) _ h0 in
      (thin, lvm, file, file_thin, zfs, zfs_thin, some_type)

part_count :
    {T : Type 0} (seen : ℕ) (path : String) (f : T → List FieldError) (o : Option T)
    → part seen path f o ≡ []
    → (present o ≡ 0) ⊎ (seen ≡ 0) × (present o ≡ 1)
part_count seen path f o h = elim (part_cases seen path f o h) [
  | inl e ↦ inl (ap present e)
  | inr (first, (t, e, _)) ↦ inr (first, ap present e)
]

-- A pool without errors has exactly one type.
pub num_pool_types_lem :
    (p : LinstorStoragePool) (old : Option LinstorStoragePool) (path : String)
    → pool_errors p old path ≡ []
    → num_pool_types p ≡ 1
num_pool_types_lem p old path h =
    let (a, b, c, d, e, f, some_type) = pool_errors-HasNoErrors p old path h in
    let a' = part_count _ _ _ p.lvm_thin_pool a in
    let b' = part_count _ _ _ p.lvm_pool b in
    let c' = part_count _ _ _ p.file_pool c in
    let d' = part_count _ _ _ p.file_thin_pool d in
    let e' = part_count _ _ _ p.zfs_pool e in
    let f' = part_count _ _ _ p.zfs_thin_pool f in ground (arith, some_type)
