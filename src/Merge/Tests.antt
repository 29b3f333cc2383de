-- ===== src/Merge/Tests.antt =====
-- Two configurations that give a property of the same name, for
-- pkg/merge/linstorsatelliteconfiguration.go.
use piraeus_operator.Base.{
  String, Bool, false, List, [], ◌∷◌, none, some, ◌≡◌, refl, map, get, put, sort, insert, put_named,
}
use piraeus_operator.Cluster.{Node, NodeSelector}
use piraeus_operator.Satellite.Deletion.{evacuate_policy}
use piraeus_operator.FieldPath.Properties.{LinstorNodeProperty}
use piraeus_operator.Merge.{
  LinstorSatelliteConfiguration, property_name, pool_spec_name, satellite_configurations,
  collect_from, subset_of, convert_template_to_patch,
}
use piraeus_operator.Merge.Folds.{flatten, applying, patches_of}
use piraeus_operator.Merge.Merged.{IsMerge, satellite_configurations-IsMerge}

abbrev property : String → String → LinstorNodeProperty
property name value = record {
  name = name;
  value = value;
  value_from = none;
  expand_from = none;
  optional = false;
}

abbrev config :
    String → List (String × String) → List LinstorNodeProperty → LinstorSatelliteConfiguration
config name selector properties = record {
  name = name;
  node_selector = selector;
  node_affinity = none;
  patches = [];
  resource_name_suffix_separator = "";
  storage_pools = [];
  properties = properties;
  internal_tls = none;
  ip_families = none;
  deletion_policy = evacuate_policy;
  evacuation_strategy = none;
  pod_template = "";
}

abbrev configs : List LinstorSatelliteConfiguration
configs =
    config "all" [] (property "b" "1" ∷ property "a" "2" ∷ [])
    ∷ config "gpu" (("gpu", "yes") ∷ []) (property "a" "0" ∷ [])
    ∷ config "linux" (("os", "linux") ∷ []) (property "b" "3" ∷ [])
    ∷ []

abbrev node : Node
node = record { name = "n1"; labels = ("os", "linux") ∷ [] }

abbrev never : Node → NodeSelector → Bool
never n s = false

satellite_configurations-IsMerge_example :
    (let (merged, matched) = satellite_configurations never some node configs in
      let chosen = applying never some node configs in
      IsMerge property_name
        (flatten (λ (g : LinstorSatelliteConfiguration). g.properties) chosen)
        merged.properties
      × IsMerge pool_spec_name
          (flatten (λ (g : LinstorSatelliteConfiguration). g.storage_pools) chosen)
          merged.storage_pools
      × (merged.patches ≡ flatten (patches_of never some node) chosen)
      × (matched ≡ map (λ (g : LinstorSatelliteConfiguration). g.name) chosen))
satellite_configurations-IsMerge_example = satellite_configurations-IsMerge never some node configs

merged_properties :
    (satellite_configurations never some node configs).0.properties
    ≡ property "a" "2" ∷ property "b" "3" ∷ []
unfolding satellite_configurations collect_from subset_of convert_template_to_patch put_named get
    put sort insert
merged_properties = refl
