-- ===== src/Evacuation/Volumes.antt =====
-- What pkg/evacuation/evacuation.go reads off the volumes and attachments of a cluster.
use piraeus_operator.Base.{
  String, Bool, true, false, List, [], ◌∷◌, ◌++◌, Option, none, some, Dict, get, put, or_else, ◌⧺◌,
  ◌&&◌, not, ◌==◌, if◌then◌else◌, any,
}
use piraeus_operator.Cluster.{
  PersistentVolume, VolumeAttachment, Node, ResourceGroup, ResourceDefinition, Subject, claim,
  volume,
}
use piraeus_operator.Cluster.Effect.{Api, Names}

-- `m[k]` on a map of texts, which reads "" for a missing key
abbrev pub read : Dict String → String → String
read m k = or_else "" (get m k)

-- the annotation `vars.PersistentVolumeWaitForReattachAnnotationPrefix` of a node
abbrev pub wait_annotation : String → String
wait_annotation node = "wait-for-reattach.evacuation.piraeus.io" ⧺ "/" ⧺ node

abbrev pub since_annotation : String → String
since_annotation node = "wait-for-reattach-since.evacuation.piraeus.io" ⧺ "/" ⧺ node

abbrev pub override_annotation : Names → String → String
override_annotation names node = names.override_annotation_prefix ⧺ "/" ⧺ node

abbrev pub action_annotation : Names → String
action_annotation names = names.csi_driver_name ⧺ "/evacuation-action"

abbrev pub action_property : Names → String
action_property names = names.namespc_auxiliary ⧺ "/" ⧺ action_annotation names

abbrev pub action_none : String
action_none = "None"

abbrev pub action_delete : String
action_delete = "Delete"

abbrev pub action_affinity_override : String
action_affinity_override = "AffinityOverride"

-- the loop of `PVsByLinstorResource`; a later volume of the same handle replaces an earlier one
unfoldable pub pvs_from :
    Names → Dict PersistentVolume → List PersistentVolume → Dict PersistentVolume
pvs_from names result [] = result
pvs_from names result (pv ∷ pvs) =
    pvs_from names
      (elim pv.csi [
        | none ↦ result
        | some csi ↦
            if csi.driver == names.csi_driver_name then put result csi.volume_handle pv else result
      ])
      pvs

unfoldable pub pvs_by_linstor_resource : Names → List PersistentVolume → Dict PersistentVolume
unfolding pvs_from
pvs_by_linstor_resource names pvs = pvs_from names [] pvs

unfoldable pub attachments_from :
    Dict VolumeAttachment → List VolumeAttachment → Dict VolumeAttachment
attachments_from result [] = result
attachments_from result (a ∷ rest) =
    attachments_from
      (elim a.persistent_volume_name [ none ↦ result | some name ↦ put result name a ]) rest

unfoldable pub attachments_by_pv : List VolumeAttachment → Dict VolumeAttachment
unfolding attachments_from
attachments_by_pv attachments = attachments_from [] attachments

unfoldable pub attached_from : Dict (List String) → List VolumeAttachment → Dict (List String)
attached_from result [] = result
attached_from result (a ∷ rest) =
    attached_from
      (elim a.persistent_volume_name [
        | none ↦ result
        | some name ↦ put result name (or_else [] (get result name) ++ a.node_name ∷ [])
      ])
      rest

unfoldable pub to_attached_nodes : List VolumeAttachment → Dict (List String)
unfolding attached_from
to_attached_nodes attachments = attached_from [] attachments

unfoldable pub has_local_only_access_policy : Names → PersistentVolume → String → Bool
has_local_only_access_policy names pv node =
    if read pv.annotations (override_annotation names node) == "true" then false else elim pv.csi [
      | none ↦ false
      | some csi ↦
          if not (read csi.volume_attributes names.volume_context_marker == "true")
          then false
          else read csi.volume_attributes names.remote_access_policy_opts == "false"
    ]

unfoldable pub is_attachable_on_other_node : Api → PersistentVolume → String → List Node → Bool
is_attachable_on_other_node api pv current nodes = elim pv.node_affinity [
  | none ↦ true
  | some none ↦ true
  | some (some required) ↦ any (λ n. not (n.name == current) && api.matches n required) nodes
]

abbrev pub definition_or_empty : Option ResourceDefinition → ResourceDefinition
definition_or_empty none = record { name = ""; resource_group_name = ""; props = [] }
definition_or_empty (some rd) = rd

abbrev pub group_props : Option ResourceGroup → Dict String
group_props none = []
group_props (some rg) = rg.props

-- What no explicit action decides.
unfoldable pub default_action : Api → PersistentVolume → String → List Node → String
unfolding has_local_only_access_policy is_attachable_on_other_node
default_action api pv node nodes =
    if has_local_only_access_policy api.names pv node
      && not (is_attachable_on_other_node api pv node nodes)
    then action_affinity_override
    else action_none

unfoldable pub evacuation_action_for_pv :
    Api
    → PersistentVolume
    → Dict ResourceDefinition
    → Dict ResourceGroup
    → String
    → List Node
    → String
unfolding default_action
evacuation_action_for_pv api pv rds rgs node nodes =
    elim (get pv.annotations (action_annotation api.names)) [
      | some v ↦ v
      | none ↦ elim pv.csi [
        | none ↦ default_action api pv node nodes
        | some csi ↦
            let rd = definition_or_empty (get rds csi.volume_handle) in
            elim (get rd.props (action_property api.names)) [
              | some v ↦ v
              | none ↦
                  elim (get (group_props (get rgs rd.resource_group_name))
                    (action_property api.names)) [
                      | some v ↦ v
                      | none ↦ default_action api pv node nodes
                    ]
            ]
      ]
    ]

-- `pvcOrPVEventf`: on the claim, or on the volume where no claim is bound
abbrev pub subject_of : PersistentVolume → Subject
subject_of pv = elim pv.claim_ref [ some ref ↦ claim ref | none ↦ volume pv.name ]
