-- ===== src/FieldPath.antt =====
-- pkg/utils/fieldpath/fieldpath.go: the values that a reference to the fields of an object stands for.
-- Quoting in errors leaves a text as it is.
use piraeus_operator.Base.{
  String, Bool, true, false, List, [], ◌∷◌, Option, none, some, ◌⧺◌, ◌==◌, if◌then◌else◌, or_else,
  is_empty, map, join, Dict, get, keys, sort, str_leb, cut_suffix, cut_prefix, cut,
}
use piraeus_operator.Cluster.{plain_error}
use piraeus_operator.Cluster.Effect.{Result, ok, err}
pub mod Paths
pub mod Wildcards
pub mod Properties
pub mod Accepted
pub mod Sample
mod Tests

-- What `meta.Accessor` gives access to
pub record ObjectMeta : Type 0 where
  pub name : String
  pub namespace : String
  pub uid : String
  pub annotations : Dict String
  pub labels : Dict String

-- `validation.IsQualifiedName`, and `strings.ToLower` with its tables
pub record KeyRules : Type 0 where
  pub is_qualified_name : String → List String
  pub to_lower : String → String

-- The values, and the keys of a wildcard: `none` is the nil slice.
pub record Fields : Type 0 where
  pub vals : List String
  pub keys : Option (List String)

-- the path, the subscript, and whether there is one
abbrev pub split_at_bracket : String → Option (String × String) → String × String × Bool
split_at_bracket field_path none = (field_path, "", false)
split_at_bracket field_path (some (path, subscript)) =
    if path == "" then (field_path, "", false) else (path, subscript, true)

abbrev pub split_before : String → Option String → String × String × Bool
split_before field_path none = (field_path, "", false)
split_before field_path (some s) = split_at_bracket field_path (cut "['" s)

unfoldable pub split_maybe_subscripted_path : String → String × String × Bool
split_maybe_subscripted_path field_path = split_before field_path (cut_suffix "']" field_path)

-- a map with its keys in order: what `mapToSlices` returns, the values first
unfoldable pub map_to_slices : Dict String → Fields
map_to_slices m =
    let ks = sort str_leb (keys m) in
    record { vals = map (λ k. or_else "" (get m k)) ks; keys = some ks }

-- the keys with a prefix, without it
unfoldable pub filter_prefix : Dict String → String → Dict String
filter_prefix [] prefix = []
filter_prefix ((k, v) ∷ m) prefix =
    let rest = filter_prefix m prefix in
    elim (cut_prefix prefix k) [ none ↦ rest | some short ↦ (short, v) ∷ rest ]

-- the value of one key
abbrev pub single : Option String → Fields
single none = record { vals = []; keys = none }
single (some v) = record { vals = v ∷ []; keys = none }

abbrev pub one_key : List String → Dict String → String → String → Result Fields
one_key errs m field_path subscript =
    if is_empty errs
    then ok (single (get m subscript))
    else err (plain_error ("invalid key subscript in " ⧺ field_path ⧺ ": " ⧺ join ";" errs))

-- a subscript of a map, which may end in a wildcard
unfoldable pub subscripted : List String → Dict String → String → String → Result Fields
subscripted errs m field_path subscript = elim (cut_suffix "*" subscript) [
  | some prefix ↦ ok (map_to_slices (filter_prefix m prefix))
  | none ↦ one_key errs m field_path subscript
]

module _ (rules : KeyRules) (obj : ObjectMeta) where
  -- the first switch
  unfoldable pub extract_subscript : String → String → String → Result Fields
  unfolding subscripted
  extract_subscript field_path path subscript =
      if path == "metadata.annotations"
      then subscripted (rules.is_qualified_name (rules.to_lower subscript)) obj.annotations
          field_path subscript
      else if path == "metadata.labels"
      then subscripted (rules.is_qualified_name subscript) obj.labels field_path subscript
      else err (plain_error ("fieldPath " ⧺ field_path ⧺ " does not support subscript"))

  abbrev pub literal : String → Result Fields
  literal s = ok (record { vals = s ∷ []; keys = none })

  -- the second switch
  unfoldable pub extract_whole : String → Result Fields
  unfolding map_to_slices
  extract_whole field_path =
      if field_path == "metadata.annotations"
      then ok (map_to_slices obj.annotations)
      else if field_path == "metadata.labels"
      then ok (map_to_slices obj.labels)
      else if field_path == "metadata.name"
      then literal obj.name
      else if field_path == "metadata.namespace"
      then literal obj.namespace
      else if field_path == "metadata.uid"
      then literal obj.uid
      else err (plain_error ("unsupported fieldPath: " ⧺ field_path))

  abbrev pub extract_at : String → String × String × Bool → Result Fields
  extract_at field_path (path, subscript, true) = extract_subscript field_path path subscript
  extract_at field_path (path, subscript, false) = extract_whole field_path

  unfoldable pub extract_field_path : String → Result Fields
  extract_field_path field_path = extract_at field_path (split_maybe_subscripted_path field_path)
