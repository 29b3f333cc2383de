-- ===== src/FieldPath/Properties.antt =====
-- `ResolveNodeProperties` of pkg/utils/property_resolution.go, and `ValidateNodeProperties` of
-- internal/webhook/v1/properties.go, on the properties of api/v1/properties.go.
use piraeus_operator.Base.{
  ℕ, suc, String, Bool, false, List, [], ◌∷◌, ◌++◌, Option, none, some, ◌⧺◌, ◌==◌, ◌&&◌, not,
  if◌then◌else◌, is_some, eqb, length, join, Dict, put, replace_all, decimal, or_else,
}
use piraeus_operator.Cluster.{plain_error}
use piraeus_operator.Cluster.Effect.{Result, ok, err}
use piraeus_operator.FieldPath.{ObjectMeta, KeyRules, Fields, extract_field_path}
use piraeus_operator.StoragePool.Validation.{FieldError, field_error, invalid, child, failures}

pub record LinstorNodePropertyExpandFrom : Type 0 where
  pub node_field_ref : String
  pub name_template : String
  pub value_template : String
  pub delimiter : String

-- `value_from` is its only field, the reference.
pub record LinstorNodeProperty : Type 0 where
  pub name : String
  pub value : String
  pub value_from : Option String
  pub expand_from : Option LinstorNodePropertyExpandFrom
  pub optional : Bool

-- `$1` stands for the key and `$2` for the value.
abbrev pub fill : String → String → String → String
fill template key val = replace_all (replace_all template "$1" key) "$2" val

-- one property for each value, where there is a template of names
unfoldable pub put_expanded :
    String → LinstorNodePropertyExpandFrom → List String → List String → Dict String → Dict String
put_expanded name e (k ∷ ks) (v ∷ vs) result =
    put_expanded name e ks vs
      (put result (name ⧺ fill e.name_template k v) (fill e.value_template k v))
put_expanded name e ks vs result = result

-- the values to join
unfoldable pub filled_values :
    LinstorNodePropertyExpandFrom → List String → List String → List String
filled_values e (k ∷ ks) (v ∷ vs) = fill e.value_template k v ∷ filled_values e ks vs
filled_values e ks vs = []

-- the case of `ValueFrom`
abbrev pub put_first_value : LinstorNodeProperty → Dict String → List String → Dict String
put_first_value p result [] = if p.optional then result else put result p.name ""
put_first_value p result (v ∷ vs) = put result p.name v

abbrev pub from_field :
    LinstorNodeProperty → String → Dict String → Result Fields → Result (Dict String)
from_field p ref result (err e) = err e
from_field p ref result (ok f) =
    if is_some f.keys
    then err (plain_error ("wildcards not allowed in 'valueFrom': '" ⧺ ref ⧺ "'"))
    else ok (put_first_value p result f.vals)

-- the case of `ExpandFrom`
abbrev pub expanded :
    LinstorNodeProperty → LinstorNodePropertyExpandFrom → Dict String → Fields → Dict String
expanded p e result f =
    let ks = or_else [] f.keys in
    if e.name_template == ""
    then put result p.name (join e.delimiter (filled_values e ks f.vals))
    else put_expanded p.name e ks f.vals result

abbrev pub from_expansion :
    LinstorNodeProperty
    → LinstorNodePropertyExpandFrom
    → Dict String
    → Result Fields
    → Result (Dict String)
from_expansion p e result (err x) = err x
from_expansion p e result (ok f) =
    if eqb (length (or_else [] f.keys)) (length f.vals)
    then ok (expanded p e result f)
    else err (plain_error ("wildcards are required in 'expandFrom': '" ⧺ e.node_field_ref ⧺ "'"))

module _ (rules : KeyRules) where
  module _ (node : ObjectMeta) where
    abbrev pub resolve_expansion :
        LinstorNodeProperty
        → Option LinstorNodePropertyExpandFrom
        → Dict String
        → Result (Dict String)
    resolve_expansion p none result = ok result
    resolve_expansion p (some e) result =
        from_expansion p e result (extract_field_path rules node e.node_field_ref)

    abbrev pub resolve_reference :
        LinstorNodeProperty → Option String → Dict String → Result (Dict String)
    resolve_reference p none result = resolve_expansion p p.expand_from result
    resolve_reference p (some ref) result =
        from_field p ref result (extract_field_path rules node ref)

    -- a round of the loop
    unfoldable pub resolve_one : LinstorNodeProperty → Dict String → Result (Dict String)
    resolve_one p result =
        if p.value == ""
        then resolve_reference p p.value_from result
        else ok (put result p.name p.value)

    unfoldable pub resolve_from :
        List LinstorNodeProperty → Result (Dict String) → Result (Dict String)
    resolve_from props (err e) = err e
    resolve_from [] (ok result) = ok result
    resolve_from (p ∷ props) (ok result) = resolve_from props (resolve_one p result)

    unfoldable pub resolve_node_properties : List LinstorNodeProperty → Result (Dict String)
    resolve_node_properties props = resolve_from props (ok [])

  -- the object without fields, on which references are tried
  abbrev pub blank : ObjectMeta
  blank = record { name = ""; namespace = ""; uid = ""; annotations = []; labels = [] }

  abbrev pub format_errors : String → Result Fields → List FieldError
  format_errors path (ok f) = []
  format_errors path (err e) = field_error invalid path ("Invalid reference format: " ⧺ e.text) ∷ []

  -- whether keys came with a value; there are none with an error
  abbrev pub has_keys : Result Fields → Bool
  has_keys (ok f) = is_some f.keys
  has_keys (err e) = false

  unfoldable pub value_from_errors : String → Option String → List FieldError
  value_from_errors path none = []
  value_from_errors path (some ref) =
      let at = child (child path "valueFrom") "nodeFieldRef" in
      let found = extract_field_path rules blank ref in
      format_errors at found
      ++ failures (
          (
            has_keys found,
            field_error invalid at "Wildcard property not allowed, use expandFrom instead",
          )
          ∷ [])

  unfoldable pub expand_from_errors :
      String → Option LinstorNodePropertyExpandFrom → List FieldError
  expand_from_errors path none = []
  expand_from_errors path (some e) =
      let at = child (child path "expandFrom") "nodeFieldRef" in
      let found = extract_field_path rules blank e.node_field_ref in
      format_errors at found
      ++ failures (
          (not (has_keys found), field_error invalid at "Wildcard property required")
          ∷ (
            not (e.name_template == "") && not (e.delimiter == ""),
            field_error invalid (child path "expandFrom")
                "Expected only one of 'nameTemplate' and 'delimiter' to be set",
          )
          ∷ [])

  -- `sourcesSet == 1`
  abbrev pub has_one_source : LinstorNodeProperty → Bool
  has_one_source p =
      let from = is_some p.value_from in
      let expand = is_some p.expand_from in
      if p.value == ""
      then (if from then not expand else expand)
      else (if from then false else not expand)

  abbrev pub count_errors : LinstorNodeProperty → String → List FieldError
  count_errors p path = failures (
      (
        not (has_one_source p),
        field_error invalid path
            "Expected exactly one of 'value', 'valueFrom' or 'joinValuesFrom' to be set",
      )
      ∷ [])

  abbrev pub property_errors : LinstorNodeProperty → String → List FieldError
  property_errors p path =
      count_errors p path
      ++ value_from_errors path p.value_from
      ++ expand_from_errors path p.expand_from

  unfoldable pub properties_errors : ℕ → String → List LinstorNodeProperty → List FieldError
  properties_errors i path [] = []
  properties_errors i path (p ∷ props) =
      property_errors p (child path (decimal i)) ++ properties_errors (suc i) path props

  unfoldable pub validate_node_properties : List LinstorNodeProperty → String → List FieldError
  validate_node_properties props path = properties_errors 0 path props
