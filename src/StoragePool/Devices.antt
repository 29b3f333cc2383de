-- ===== src/StoragePool/Devices.antt =====
-- The devices of storage pools in which `ValidateStoragePools` of internal/webhook/v1/storagepool.go
-- finds no error.
use piraeus_operator.Base.{
  ℕ, suc, String, Bool, true, false, List, [], ◌∷◌, ◌++◌, Option, none, some, ◌≡◌, refl, subst,
  arith, All, contains, decimal, starts_with, path_clean, not, eq_iff, eq_refl, Bool-cases, inl,
  inr, or_else,
}
use piraeus_operator.StoragePool.{LinstorStoragePool, LinstorStoragePoolSource}
use piraeus_operator.StoragePool.Validation.{FieldError, failures, child, differ}
use piraeus_operator.StoragePool.Sources.{
  device_errors, devices_from, check_devices, has_changed, source_errors,
}
use piraeus_operator.StoragePool.Pools.{
  old_pool, pool_errors, validate_from, validate_storage_pools,
}
use piraeus_operator.StoragePool.Accepted.{append_empty, failures-NoneFailed}

-- A clean path below /dev.
abbrev pub IsDevice : String → Type 0
IsDevice d = (starts_with d "/dev/" ≡ true) × (path_clean d ≡ d)

-- Devices that are none of the known ones, nor one another.
abbrev pub AreFresh : List String → List String → Type 0
AreFresh known [] = Unit
AreFresh known (d ∷ ds) = IsDevice d × (contains known d ≡ false) × AreFresh (d ∷ known) ds

abbrev pub push : List String → List String → List String
push known [] = known
push known (d ∷ ds) = push (d ∷ known) ds

none_of_three :
    (a b c : Bool) (e f g : FieldError)
    → failures ((a, e) ∷ (b, f) ∷ (c, g) ∷ []) ≡ []
    → (a ≡ false) × ((b ≡ false) × (c ≡ false))
none_of_three a b c e f g h =
    let passed = failures-NoneFailed ((a, e) ∷ (b, f) ∷ (c, g) ∷ []) h in
    (passed.0, (passed.1.0, passed.1.1.0))

not-false : (b : Bool) → not b ≡ false → b ≡ true
not-false true h = refl
not-false false h = ground arith

same_of_differ : (s t : String) → differ s t ≡ false → s ≡ t
same_of_differ s t h = ground (arith, eq_iff s t)

device_errors-IsDevice :
    (known : List String) (path d : String)
    → device_errors known path d ≡ []
    → IsDevice d × (contains known d ≡ false)
unfolding device_errors
device_errors-IsDevice known path d h =
    let (is_below, (is_clean, is_new)) = none_of_three _ _ _ _ _ _ h in
    ((not-false (starts_with d "/dev/") is_below, same_of_differ (path_clean d) d is_clean), is_new)

devices_from-AreFresh :
    (j : ℕ) (known : List String) (path : String) (ds : List String)
    → (devices_from j known path ds).0 ≡ []
    → AreFresh known ds × ((devices_from j known path ds).1 ≡ push known ds)
unfolding devices_from
devices_from-AreFresh j known path [] h = (tt, refl)
devices_from-AreFresh j known path (d ∷ ds) h =
    let (h1, h2) =
      append_empty (device_errors known (child (child path "hostDevices") (decimal j)) d)
        (devices_from (suc j) (d ∷ known) path ds).0 h in
    let (is_device, is_new) = device_errors-IsDevice known _ d h1 in
    let (fresh, e) = devices_from-AreFresh (suc j) (d ∷ known) path ds h2 in
    ((is_device, is_new, fresh), e)

abbrev pub source_devices : Option LinstorStoragePoolSource → List String
source_devices none = []
source_devices (some s) = or_else [] s.host_devices

check_devices-AreFresh :
    (devs : Option (List String)) (known : List String) (path : String)
    → (check_devices devs known path).0 ≡ []
    → AreFresh known (or_else [] devs)
      × ((check_devices devs known path).1 ≡ push known (or_else [] devs))
check_devices-AreFresh none known path h = ground arith
check_devices-AreFresh (some ds) known path h = devices_from-AreFresh 0 known path ds h

source_errors-AreFresh :
    (source : Option LinstorStoragePoolSource) (old : Option LinstorStoragePool)
    (known : List String) (path : String)
    → (source_errors source old known path).0 ≡ []
    → AreFresh known (source_devices source)
      × ((source_errors source old known path).1 ≡ push known (source_devices source))
unfolding source_errors
source_errors-AreFresh none old known path h = (tt, refl)
source_errors-AreFresh (some s) old known path h = elim (Bool-cases (has_changed s old)) [
  | inl e ↦ ground (arith, e, h)
  | inr e ↦ rw e (check_devices-AreFresh s.host_devices known path (rw e at h))
]

AreFresh-append :
    (known ds es : List String)
    → AreFresh known ds
    → AreFresh (push known ds) es
    → AreFresh known (ds ++ es)
AreFresh-append known [] es h k = k
AreFresh-append known (d ∷ ds) es (a, b, h) k = (a, b, AreFresh-append (d ∷ known) ds es h k)

-- The devices of all pools, in their order.
abbrev pub devices : List LinstorStoragePool → List String
devices [] = []
devices (p ∷ ps) = source_devices p.source ++ devices ps

validate_from-AreFresh :
    (olds : List LinstorStoragePool) (prefix : String) (i : ℕ) (known : List String)
    (ps : List LinstorStoragePool)
    → (validate_from olds prefix i known ps).1 ≡ []
    → AreFresh known (devices ps)
unfolding validate_from
validate_from-AreFresh olds prefix i known [] h = tt
validate_from-AreFresh olds prefix i known (p ∷ ps) h =
    let path = child prefix (decimal i) in
    let found = source_errors p.source (old_pool olds p.name) known (child path "source") in
    let (h1, rest) = append_empty _ (validate_from olds prefix (suc i) found.1 ps).1 h in
    let (_, h2) = append_empty (pool_errors p (old_pool olds p.name) path) found.0 h1 in
    let (fresh, e) =
      source_errors-AreFresh p.source (old_pool olds p.name) known (child path "source") h2 in
    let later = validate_from-AreFresh olds prefix (suc i) found.1 ps rest in
    AreFresh-append known (source_devices p.source) (devices ps) fresh
      (subst (λ k. AreFresh k (devices ps)) e later)

-- Every text stands once.
abbrev pub AreDistinct : List String → Type 0
AreDistinct [] = Unit
AreDistinct (d ∷ ds) = (contains ds d ≡ false) × AreDistinct ds

known_not_in :
    (k : String) (known ds : List String)
    → contains known k ≡ true
    → AreFresh known ds
    → contains ds k ≡ false
known_not_in k known [] e h = refl
known_not_in k known (d ∷ ds) e (a, b, h) =
    ground (arith, eq_iff d k, known_not_in k (d ∷ known) ds)

AreFresh-AreDistinct :
    (known ds : List String) → AreFresh known ds → All IsDevice ds × AreDistinct ds
AreFresh-AreDistinct known [] h = (tt, tt)
AreFresh-AreDistinct known (d ∷ ds) (a, b, h) =
    let (devs, distinct) = AreFresh-AreDistinct (d ∷ known) ds h in
    ((a, devs), (known_not_in d (d ∷ known) ds (ground (arith, eq_refl d)) h, distinct))

-- The devices of storage pools in which the webhook finds no error are clean paths below /dev, and no
-- device is used twice, in one pool or in two.
pub validate_storage_pools-AreDistinct :
    (pools olds : List LinstorStoragePool) (prefix : String)
    → (validate_storage_pools pools olds prefix).1 ≡ []
    → All IsDevice (devices pools) × AreDistinct (devices pools)
unfolding validate_storage_pools
validate_storage_pools-AreDistinct pools olds prefix h =
    AreFresh-AreDistinct [] (devices pools) (validate_from-AreFresh olds prefix 0 [] pools h)
