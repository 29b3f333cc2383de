-- ===== src/Evacuation/Relocate.antt =====
-- Steps 5 to 7 of pkg/evacuation/evacuation.go: telling LINSTOR to evacuate the node, waiting until
-- nothing is left on it, and taking the annotations off the volumes again.
use piraeus_operator.Base.{
  String, Bool, true, false, List, [], ◌∷◌, get, remove, is_some, is_empty, ◌⧺◌, ◌&&◌, ◌||◌, not,
  ◌==◌, if◌then◌else◌, join, contains, map,
}
use piraeus_operator.Cluster.{
  PersistentVolume, Resource, LinstorNode, ApiError, update_volume, list_volumes, view_resources,
  view_snapshots, check_sync, evacuate,
}
use piraeus_operator.Cluster.Effect.{
  Api, M, Result, ok, err, pure, attempt, real_error, fail_if, fail_joined, ask, ◌>>=◌,
}
use piraeus_operator.Evacuation.Volumes.{
  wait_annotation, since_annotation, override_annotation, read,
}
use piraeus_operator.Evacuation.Prepare.{unless_missing, append_error}

abbrev pub sync_error : String → ApiError → ApiError
sync_error name e = record e { text = "failed to check sync status of '" ⧺ name ⧺ "': " ⧺ e.text }

abbrev pub check_answer : String → Result Bool → Result Bool
check_answer name (ok b) = ok b
check_answer name (err e) = err (sync_error name e)

-- What `waitForEvacuation` says of what is left.
abbrev pub report_remaining : List Resource → List String → M (String × Bool)
report_remaining ress snaps =
    let remaining = map (λ (r : Resource). r.name) ress in
    if is_empty remaining && is_empty snaps
    then pure ("", true)
    else pure (
      "Waiting on remaining resources and snapshots: resources: ["
          ⧺ join ", " remaining
          ⧺ "] snapshots: ["
          ⧺ join ", " snaps
          ⧺ "]",
      false,
    )

module _ (api : Api) where
  -- one round of the loop over the resources: is a replacement still syncing?
  unfoldable pub check_resource : Bool → Resource → M Bool
  check_resource found r =
      if read r.props api.names.key_rsc_migrate_from == "" then pure found else (do
        synced ← ask (check_sync r.name) (λ log. check_answer r.name (api.synced_on_all r.name log))
        pure (if synced then found else true))

  unfoldable pub is_syncing : Bool → List Resource → M Bool
  is_syncing found [] = pure found
  is_syncing found (r ∷ rs) = check_resource found r >>= (λ b. is_syncing b rs)

  -- the end of `evacuateNode`, for what the loop found
  abbrev pub tell_evacuate : LinstorNode → Bool → M (Unit {0})
  tell_evacuate node in_progress =
      if not (contains node.flags api.names.flag_evacuate) || not in_progress
      then (do failed ← attempt api (evacuate node.name); fail_if (real_error failed))
      else pure tt

  unfoldable pub evacuate_node : LinstorNode → M (Unit {0})
  evacuate_node node =
      ask (view_resources node.name) (λ log. unless_missing (api.resources node.name log))
      >>= (λ ress. is_syncing false ress >>= tell_evacuate node)

  unfoldable pub wait_for_evacuation : String → M (String × Bool)
  wait_for_evacuation node = do
    ress ← ask (view_resources node) (λ log. unless_missing (api.resources node log))
    snaps ← ask (view_snapshots node) (λ log. unless_missing (api.snapshots node log))
    report_remaining ress snaps

  abbrev pub is_marked : String → PersistentVolume → Bool
  is_marked node pv =
      is_some (get pv.annotations (since_annotation node))
      || is_some (get pv.annotations (override_annotation api.names node))
      || is_some (get pv.annotations (wait_annotation node))

  abbrev pub cleaned : String → PersistentVolume → PersistentVolume
  cleaned node pv = record pv {
    annotations =
        remove (remove (remove pv.annotations (since_annotation node)) (wait_annotation node))
          (override_annotation api.names node);
  }

  unfoldable pub clean_volume : String → List ApiError → PersistentVolume → M (List ApiError)
  clean_volume node errs pv =
      if is_marked node pv
      then (do
        failed ← attempt api (update_volume (cleaned node pv))
        pure (append_error errs failed))
      else pure errs

  unfoldable pub clean_volumes : String → List ApiError → List PersistentVolume → M (List ApiError)
  clean_volumes node errs [] = pure errs
  clean_volumes node errs (pv ∷ pvs) =
      clean_volume node errs pv >>= (λ after. clean_volumes node after pvs)

  unfoldable pub clean_pvs_after_evacuation : String → M (Unit {0})
  clean_pvs_after_evacuation node = do
    pvs ← ask list_volumes api.volumes
    errs ← clean_volumes node [] pvs
    fail_joined errs
