-- ===== src/Evacuation/Prepare.antt =====
-- Step 1 of pkg/evacuation/evacuation.go: `preparePVsforEvacuation` marks the volumes on the node and
-- sees that they can be scheduled elsewhere.
use piraeus_operator.Base.{
  String, Bool, true, false, List, [], ◌∷◌, ◌++◌, Option, none, some, Dict, get, put, is_some,
  is_empty, ◌⧺◌, not, ◌==◌, if◌then◌else◌, join, select, contains, map,
}
use piraeus_operator.Cluster.{
  PersistentVolume, VolumeAttachment, Node, ResourceGroup, ResourceDefinition, Resource, ApiError,
  event, update_volume, delete_claim, delete_volume, list_attachments, list_nodes, list_volumes,
  list_groups, list_definitions, view_resources,
}
use piraeus_operator.Cluster.Effect.{
  Names, Api, M, Result, ok, err, pure, attempt, record_event, real_error, fail_joined, ask, ◌>>=◌,
  ◌>>◌,
}
use piraeus_operator.Evacuation.Volumes.{
  wait_annotation, override_annotation, action_affinity_override, action_delete,
  pvs_by_linstor_resource, attachments_by_pv, evacuation_action_for_pv, subject_of,
}

-- What the calls have listed so far.
pub record Listing : Type 0 where
  pub attachments : Dict VolumeAttachment
  pub nodes : List Node
  pub rds : Dict ResourceDefinition
  pub rgs : Dict ResourceGroup

-- The variables of the loop: the volumes as the map's pointers see them, the volumes that still
-- wait, and the errors.
pub record Progress : Type 0 where
  pub pvs : Dict PersistentVolume
  pub unschedulable : List String
  pub errs : List ApiError

abbrev pub append_error : List ApiError → Option ApiError → List ApiError
append_error errs none = errs
append_error errs (some e) = errs ++ e ∷ []

-- `GetResourceView` or `GetSnapshotView`: an answer that nothing was found is no error
abbrev pub unless_missing : {A : Type 0} → List A × Option ApiError → Result (List A)
unless_missing (found, failed) = elim (real_error failed) [ none ↦ ok found | some e ↦ err e ]

abbrev pub by_name : {A : Type 0} → (A → String) → Dict A → List A → Dict A
by_name name result [] = result
by_name name result (x ∷ xs) = by_name name (put result (name x) x) xs

-- what the lists of the calls hold, as the loop looks it up
abbrev pub listing_of :
    List VolumeAttachment → List Node → List ResourceGroup → List ResourceDefinition → Listing
listing_of attachments nodes groups definitions = record {
  attachments = attachments_by_pv attachments;
  nodes = nodes;
  rds = by_name (λ (rd : ResourceDefinition). rd.name) [] definitions;
  rgs = by_name (λ (rg : ResourceGroup). rg.name) [] groups;
}

abbrev pub start_of : Names → List PersistentVolume → Progress
start_of names volumes = record {
  pvs = pvs_by_linstor_resource names volumes;
  unschedulable = [];
  errs = [];
}

-- the end of `preparePVsforEvacuation`
abbrev pub report_progress : Progress → M (String × Bool)
report_progress p = do
  fail_joined p.errs
  if is_empty p.unschedulable
      then pure ("", true)
      else pure
          ("Waiting for PVs to be schedulable on other nodes: " ⧺ join ", " p.unschedulable, false)

module _ (api : Api) (node : String) where
  unfoldable pub diskful_resources_on_node : M (List String)
  diskful_resources_on_node = do
    ress ← ask (view_resources node) (λ log. unless_missing (api.resources node log))
    pure (
        map (λ (r : Resource). r.name)
          (select (λ (r : Resource). not (contains r.flags api.names.flag_diskless)) ress))

  abbrev pub annotate : PersistentVolume → String → String → PersistentVolume
  annotate pv k v = record pv { annotations = put pv.annotations k v }

  -- the wait-for-reattach annotation, set once; the flag is `toUpdate`
  unfoldable pub mark_waiting : Listing → PersistentVolume → M (PersistentVolume × Bool)
  mark_waiting known pv =
      if is_some (get pv.annotations (wait_annotation node)) then pure (pv, false) else (do
        let attached = if is_some (get known.attachments pv.name) then "true" else "false"
        let pv' = annotate pv (wait_annotation node) attached
        record_event (
            event (subject_of pv) "VolumeEvacuating"
              ("Volume is being evacuated from Node '" ⧺ node ⧺ "'"))
        pure (pv', true))

  -- the case `PVEvacuationActionAffinityOverride`
  unfoldable pub lift_affinity : PersistentVolume → Bool → M (PersistentVolume × Bool)
  lift_affinity pv to_update =
      if is_some (get pv.annotations (override_annotation api.names node))
      then pure (pv, to_update)
      else (do
        record_event (
            event (subject_of pv) "VolumeTemporarilyMadeReschedulable"
              "Volume is made reschedulable to attach on replacement node")
        pure (annotate pv (override_annotation api.names node) "true", true))

  unfoldable pub delete_bound_claim : PersistentVolume → M (Option ApiError)
  delete_bound_claim pv = elim pv.claim_ref [
    | none ↦ pure none
    | some ref ↦ (do
      record_event (
          event (subject_of pv) "VolumeDeletedForEvacuation"
            "Volume deleted on node according to evacuation action")
      failed ← attempt api (delete_claim ref)
      pure (real_error failed))
  ]

  unfoldable pub delete_pv : PersistentVolume → M (Option ApiError)
  delete_pv pv =
      if pv.is_deleted
      then pure none
      else (do failed ← attempt api (delete_volume pv.name pv.uid); pure (real_error failed))

  abbrev pub update_if : Bool → PersistentVolume → M (Option ApiError)
  update_if false pv = pure none
  update_if true pv = do failed ← attempt api (update_volume pv); pure (real_error failed)

  -- the end of a round of the loop
  unfoldable pub finish_volume :
      Progress → String → List String → List ApiError → PersistentVolume × Bool → M Progress
  finish_volume p handle unschedulable errs (pv, to_update) = do
    failed ← update_if to_update pv
    pure (record {
      pvs = put p.pvs handle pv;
      unschedulable = unschedulable;
      errs = append_error errs failed;
    })

  -- the case `PVEvacuationActionDelete`
  unfoldable pub delete_both : PersistentVolume → List ApiError → M (List ApiError)
  delete_both pv errs = do
    claim_failed ← delete_bound_claim pv
    pv_failed ← delete_pv pv
    pure (append_error (append_error errs claim_failed) pv_failed)

  -- the switch on the action
  unfoldable pub take_action : String → Progress → String → PersistentVolume × Bool → M Progress
  take_action action p handle (pv, to_update) =
      if action == action_affinity_override
      then lift_affinity pv to_update
        >>= finish_volume p handle (p.unschedulable ++ pv.name ∷ []) p.errs
      else if action == action_delete
      then (do
        errs ← delete_both pv p.errs
        finish_volume p handle p.unschedulable errs (pv, to_update))
      else finish_volume p handle p.unschedulable p.errs (pv, to_update)

  abbrev pub action_for : Listing → PersistentVolume → String
  action_for known pv = evacuation_action_for_pv api pv known.rds known.rgs node known.nodes

  -- one round of the loop, for a volume that the map holds
  unfoldable pub prepare_volume : Listing → Progress → String → PersistentVolume → M Progress
  prepare_volume known p handle pv =
      mark_waiting known pv >>= (λ marked. take_action (action_for known marked.0) p handle marked)

  abbrev pub prepare_one : Listing → Progress → String → M Progress
  prepare_one known p handle = elim (get p.pvs handle) [
    | none ↦ pure p
    | some pv ↦ prepare_volume known p handle pv
  ]

  unfoldable pub prepare_all : Listing → Progress → List String → M Progress
  prepare_all known p [] = pure p
  prepare_all known p (handle ∷ rest) = do p ← prepare_one known p handle; prepare_all known p rest

  -- A message about the progress, and whether the step is done.
  unfoldable pub prepare_pvs_for_evacuation : M (String × Bool)
  prepare_pvs_for_evacuation = do
    attachments ← ask list_attachments api.attachments
    nodes ← ask list_nodes api.nodes
    volumes ← ask list_volumes api.volumes
    groups ← ask list_groups api.groups
    definitions ← ask list_definitions api.definitions
    resources ← diskful_resources_on_node
    p ←
        prepare_all (listing_of attachments nodes groups definitions) (start_of api.names volumes)
          resources
    report_progress p
