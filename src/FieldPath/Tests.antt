-- ===== src/FieldPath/Tests.antt =====
-- Examples for pkg/utils/fieldpath/fieldpath.go and the properties of nodes.
use piraeus_operator.Base.{
  String, true, false, List, [], ◌∷◌, none, some, ◌≡◌, ◌≢◌, refl, test→ne, cut, cut_prefix,
  cut_suffix, get, put, sort, insert, replace_from,
}
use piraeus_operator.Cluster.Effect.{ok}
use piraeus_operator.FieldPath.{
  split_maybe_subscripted_path, extract_field_path, extract_subscript, extract_whole, subscripted,
  map_to_slices, filter_prefix,
}
use piraeus_operator.FieldPath.Paths.{
  subscripted_path, split-subscripted_path, subscripted_path-split,
}
use piraeus_operator.FieldPath.Wildcards.{IsExpansion, extract_field_path-IsExpansion}
use piraeus_operator.FieldPath.Properties.{
  LinstorNodeProperty, resolve_node_properties, validate_node_properties, resolve_from, resolve_one,
  properties_errors, value_from_errors, expand_from_errors, filled_values, put_expanded,
}
use piraeus_operator.FieldPath.Accepted.{Succeeds, resolve_node_properties-Succeeds}
use piraeus_operator.FieldPath.Sample.{lax, node}

split-subscripted_path_example :
    split_maybe_subscripted_path (subscripted_path "metadata.labels" "a['b']c")
    ≡ ("metadata.labels", "a['b']c", true)
unfolding cut
split-subscripted_path_example =
    split-subscripted_path "metadata.labels" "a['b']c" (test→ne "metadata.labels" "" refl) refl

abbrev topology : LinstorNodeProperty
topology = record {
  name = "Aux/topology/";
  value = "";
  value_from = none;
  expand_from = some (record {
    node_field_ref = "metadata.labels['site/*']";
    name_template = "$1";
    value_template = "$2";
    delimiter = "";
  });
  optional = false;
}

abbrev host : LinstorNodeProperty
host = record {
  name = "Aux/host";
  value = "";
  value_from = some "metadata.name";
  expand_from = none;
  optional = false;
}

split_test : split_maybe_subscripted_path "metadata.labels['a']" ≡ ("metadata.labels", "a", true)
unfolding split_maybe_subscripted_path cut_suffix cut cut_prefix
split_test = refl

subscripted_path-split_example :
    ("metadata.labels['a']" ≡ subscripted_path "metadata.labels" "a")
    × ◌≢◌ {A = String} "metadata.labels" ""
subscripted_path-split_example =
    subscripted_path-split "metadata.labels['a']" "metadata.labels" "a" split_test

extract_field_path-IsExpansion_example :
    IsExpansion node.labels "site/" (extract_field_path lax node "metadata.labels['site/*']")
    × IsExpansion node.annotations "site/"
        (extract_field_path lax node "metadata.annotations['site/*']")
extract_field_path-IsExpansion_example = extract_field_path-IsExpansion lax node "site/"

abbrev node_props : List LinstorNodeProperty
node_props = topology ∷ host ∷ []

accepted : validate_node_properties lax node_props "spec" ≡ []
unfolding validate_node_properties properties_errors value_from_errors expand_from_errors
    extract_field_path split_maybe_subscripted_path cut_suffix cut cut_prefix extract_subscript
    extract_whole subscripted map_to_slices filter_prefix sort insert get
accepted = refl

resolve_node_properties-Succeeds_example : Succeeds (resolve_node_properties lax node node_props)
resolve_node_properties-Succeeds_example =
    resolve_node_properties-Succeeds lax node node_props "spec" accepted

resolved :
    resolve_node_properties lax node node_props
    ≡ ok (("Aux/topology/rack", "r7") ∷ ("Aux/topology/zone", "z1") ∷ ("Aux/host", "n1") ∷ [])
unfolding resolve_node_properties resolve_from resolve_one extract_field_path
    split_maybe_subscripted_path cut_suffix cut cut_prefix extract_subscript extract_whole
    subscripted map_to_slices filter_prefix sort insert get put replace_from filled_values
    put_expanded
resolved = refl
