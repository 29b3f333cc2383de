-- ===== src/Merge.antt =====
-- pkg/merge/linstorsatelliteconfiguration.go: the configurations that apply to a node, as one. The
-- types are those of api/v1/linstorsatelliteconfiguration_types.go, patch.go and tls.go.
use piraeus_operator.Base.{
  String, Bool, true, false, List, [], ◌∷◌, ◌++◌, Option, none, some, ◌==◌, ◌&&◌, not,
  if◌then◌else◌, is_some, all, map, Dict, get, sort, str_leb, values, put_named,
}
use piraeus_operator.Cluster.{Node, NodeSelector}
use piraeus_operator.Evacuation.Reattach.{EvacuationStrategy}
use piraeus_operator.LinstorHelper.Client.{CaReference}
use piraeus_operator.FieldPath.Properties.{LinstorNodeProperty}
use piraeus_operator.Satellite.Deletion.{DeletionPolicy, no_policy}
use piraeus_operator.Satellite.Pools.{PoolSpec}
pub mod Folds
pub mod Merged
mod Tests

pub record Selector : Type 0 where
  pub group : String
  pub version : String
  pub kind : String
  pub name : String
  pub namespace : String
  pub annotation_selector : String
  pub label_selector : String

pub record PatchArgs : Type 0 where
  pub allow_name_change : Bool
  pub allow_kind_change : Bool

pub record Patch : Type 0 where
  pub patch : String
  pub target : Option Selector
  pub options : Option PatchArgs

-- `cert_manager` is the name of the issuer.
pub record TlsConfigWithHandshakeDaemon : Type 0 where
  pub secret_name : String
  pub cert_manager : Option String
  pub ca_reference : Option CaReference
  pub tls_handshake_daemon : Bool

-- `pod_template` is the raw JSON.
pub record LinstorSatelliteConfiguration : Type 0 where
  pub name : String
  pub node_selector : Dict String
  pub node_affinity : Option NodeSelector
  pub patches : List Patch
  pub resource_name_suffix_separator : String
  pub storage_pools : List PoolSpec
  pub properties : List LinstorNodeProperty
  pub internal_tls : Option TlsConfigWithHandshakeDaemon
  pub ip_families : Option (List String)
  pub deletion_policy : DeletionPolicy
  pub evacuation_strategy : Option EvacuationStrategy
  pub pod_template : String

-- `SubsetOf`
unfoldable pub subset_of : Dict String → Dict String → Bool
subset_of sub super = all (λ p. elim (get super p.0) [ none ↦ false | some v ↦ v == p.1 ]) sub

-- What the loop over the configurations has found so far.
pub record Collected : Type 0 where
  pub matched : List String
  pub props_map : Dict LinstorNodeProperty
  pub stor_pool_map : Dict PoolSpec
  pub patches : List Patch
  pub resource_name_suffix_separator : String
  pub internal_tls : Option TlsConfigWithHandshakeDaemon
  pub ip_families : Option (List String)
  pub deletion_policy : DeletionPolicy
  pub evacuation_strategy : Option EvacuationStrategy

abbrev pub nothing_yet : Collected
nothing_yet = record {
  matched = [];
  props_map = [];
  stor_pool_map = [];
  patches = [];
  resource_name_suffix_separator = "";
  internal_tls = none;
  ip_families = none;
  deletion_policy = no_policy;
  evacuation_strategy = none;
}

-- `if new != nil { old = new }`
abbrev pub later : {A : Type 0} → Option A → Option A → Option A
later old none = old
later old (some new) = some new

abbrev pub later_text : String → String → String
later_text old new = if new == "" then old else new

abbrev pub later_policy : DeletionPolicy → DeletionPolicy → DeletionPolicy
later_policy old no_policy = old
later_policy old new = new

abbrev pub property_name : LinstorNodeProperty → String
property_name p = p.name

abbrev pub pool_spec_name : PoolSpec → String
pool_spec_name s = s.pool.name

abbrev pub satellite_selector : Selector
satellite_selector = record {
  group = "apps";
  version = "v1";
  kind = "DaemonSet";
  name = "linstor-satellite";
  namespace = "";
  annotation_selector = "";
  label_selector = "";
}

-- The matching of terms is the scheduler's. `encode` is `json.Marshal` of the patch with a template,
-- which fails for a text that is no JSON.
module _ (matches : Node → NodeSelector → Bool) (encode : String → Option String) where
  abbrev pub template_patch : Option String → List Patch
  template_patch none = []
  template_patch (some encoded) =
      record { patch = encoded; target = some satellite_selector; options = none } ∷ []

  -- `ConvertTemplateToPatch`; its error is only logged
  unfoldable pub convert_template_to_patch : String → List Patch
  convert_template_to_patch template =
      if template == "" then [] else template_patch (encode template)

  -- the two tests on the node
  abbrev pub applies_to : Node → LinstorSatelliteConfiguration → Bool
  applies_to node cfg =
      subset_of cfg.node_selector node.labels
      && elim cfg.node_affinity [ none ↦ true | some terms ↦ matches node terms ]

  -- a round of the loop
  abbrev pub add_configuration : Collected → LinstorSatelliteConfiguration → Collected
  add_configuration c cfg = record {
    matched = c.matched ++ cfg.name ∷ [];
    props_map = put_named property_name cfg.properties c.props_map;
    stor_pool_map = put_named pool_spec_name cfg.storage_pools c.stor_pool_map;
    patches = c.patches ++ convert_template_to_patch cfg.pod_template ++ cfg.patches;
    resource_name_suffix_separator =
        later_text c.resource_name_suffix_separator cfg.resource_name_suffix_separator;
    internal_tls = later c.internal_tls cfg.internal_tls;
    ip_families = later c.ip_families cfg.ip_families;
    deletion_policy = later_policy c.deletion_policy cfg.deletion_policy;
    evacuation_strategy = later c.evacuation_strategy cfg.evacuation_strategy;
  }

  unfoldable pub collect_from : Node → Collected → List LinstorSatelliteConfiguration → Collected
  collect_from node c [] = c
  collect_from node c (cfg ∷ cfgs) =
      collect_from node (if applies_to node cfg then add_configuration c cfg else c) cfgs

  abbrev pub by_name : {A : Type 0} → (A → String) → A → A → Bool
  by_name name a b = str_leb (name a) (name b)

  -- the configuration, whose name and selectors are empty, and the names of those that matched
  unfoldable pub satellite_configurations :
      Node → List LinstorSatelliteConfiguration → LinstorSatelliteConfiguration × List String
  satellite_configurations node configs =
      let c = collect_from node nothing_yet configs in
      (
        record {
          name = "";
          node_selector = [];
          node_affinity = none;
          patches = c.patches;
          resource_name_suffix_separator = c.resource_name_suffix_separator;
          storage_pools = sort (by_name pool_spec_name) (values c.stor_pool_map);
          properties = sort (by_name property_name) (values c.props_map);
          internal_tls = c.internal_tls;
          ip_families = c.ip_families;
          deletion_policy = c.deletion_policy;
          evacuation_strategy = c.evacuation_strategy;
          pod_template = "";
        },
        c.matched,
      )
