-- ===== src/StoragePool/Validation.antt =====
-- What the webhook says of an LVM storage pool: internal/webhook/v1/storagepool.go. The value that an
-- error quotes is left out.
use piraeus_operator.Base.{
  ℕ, String, Bool, true, false, List, [], ◌∷◌, Option, none, some, ◌⧺◌, ◌==◌, ◌&&◌, ◌||◌, not,
  is_some, is_empty, leb, eqb, is_letter, is_alphanumeric, all_chars, any_char, size, first_then,
  last_in,
}
use piraeus_operator.StoragePool.{LinstorStoragePool, LinstorStoragePoolSource}

pub data ErrorType : Type 0 where
  invalid forbidden required duplicate not_supported : ErrorType

pub record FieldError : Type 0 where
  pub kind : ErrorType
  pub path : String
  pub detail : String

abbrev pub field_error : ErrorType → String → String → FieldError
field_error kind path detail = record { kind = kind; path = path; detail = detail }

-- The errors of the tests that fail.
abbrev pub failures : List (Bool × FieldError) → List FieldError
failures [] = []
failures ((true, e) ∷ rest) = e ∷ failures rest
failures ((false, e) ∷ rest) = failures rest

abbrev pub child : String → String → String
child path name = path ⧺ "." ⧺ name

abbrev pub is_word : ℕ → Bool
is_word n = is_alphanumeric n || eqb n 95 || eqb n 45

-- `^[A-Za-z0-9][A-Za-z0-9_-]{1,46}[A-Za-z0-9]$`
abbrev pub is_pool_name : String → Bool
is_pool_name s =
    first_then is_alphanumeric (all_chars is_word) s
    && last_in is_alphanumeric s
    && leb 3 (size s)
    && leb (size s) 48

abbrev pub is_vg_char : ℕ → Bool
is_vg_char n = is_word n || eqb n 46 || eqb n 43

-- `^[A-Za-z0-9.+_-]+$`
abbrev pub is_vg_name : String → Bool
is_vg_name s = first_then is_vg_char (all_chars is_vg_char) s

-- `^[A-Za-z0-9_][A-Za-z0-9._-]{0,47}$`
abbrev pub is_space_chars : String → Bool
is_space_chars s =
    first_then (λ n. is_alphanumeric n || eqb n 95) (all_chars (λ n. is_word n || eqb n 46)) s
    && leb (size s) 48

-- `[A-Za-z]`
abbrev pub has_letter : String → Bool
has_letter s = any_char is_letter s

-- `slices.Equal`
abbrev pub same_list : List String → List String → Bool
same_list [] [] = true
same_list [] (y ∷ ys) = false
same_list (x ∷ xs) [] = false
same_list (x ∷ xs) (y ∷ ys) = x == y && same_list xs ys

-- `oldSP != nil && oldSP.F == nil`
abbrev pub had_no :
    {T : Type 0} → (LinstorStoragePool → Option T) → Option LinstorStoragePool → Bool
had_no f none = false
had_no f (some old) = not (is_some (f old))

abbrev pub test_of : {T : Type 0} → (T → Bool) → Option T → Bool
test_of p none = false
test_of p (some t) = p t

-- `oldSP != nil && oldSP.F != nil && p(oldSP.F)`
abbrev pub had_other :
    {T : Type 0} → (LinstorStoragePool → Option T) → (T → Bool) → Option LinstorStoragePool → Bool
had_other f p none = false
had_other f p (some old) = test_of p (f old)

abbrev pub differ : String → String → Bool
differ s t = not (s == t)

abbrev pub differ_bool : Bool → Bool → Bool
differ_bool true b = not b
differ_bool false b = b

abbrev pub warn : Bool → String → List String
warn true w = w ∷ []
warn false w = []

abbrev pub update_warning : String → String
update_warning path = path ⧺ ": Update will only apply to new nodes"

unfoldable pub validate_no_source :
    Option LinstorStoragePoolSource → String → String → List FieldError
validate_no_source source path name = failures (
    (
      is_some source,
      field_error invalid path
          ("Storage Pool Type '" ⧺ name ⧺ "' does not support setting a source"),
    )
    ∷ [])

unfoldable pub validate_create_args_require_source :
    Option LinstorStoragePoolSource → List String → String → List String
validate_create_args_require_source source args path =
    warn (not (is_empty args) && not (is_some source))
      (path ⧺ ": Arguments without a pool source have no effect")

-- `validateStoragePoolType`, for the number of types seen before
unfoldable pub validate_storage_pool_type : ℕ → String → List FieldError
validate_storage_pool_type seen path =
    failures
      ((leb 1 seen, field_error forbidden path "Must specify exactly 1 type of storage pool") ∷ [])
