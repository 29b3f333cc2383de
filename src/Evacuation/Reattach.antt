-- ===== src/Evacuation/Reattach.antt =====
-- Steps 2 and 4 of pkg/evacuation/evacuation.go: waiting for the other satellites, and for volumes to
-- be attached on other nodes. Instants and durations are numbers of one unit.
use piraeus_operator.Base.{
  ℕ, ◌+◌, String, Bool, true, false, List, [], ◌∷◌, none, some, Dict, get, put, remove, is_some,
  is_empty, ◌⧺◌, ◌||◌, not, ◌==◌, if◌then◌else◌, join, contains, map, or_else, leb, eqb, select,
}
use piraeus_operator.Conditions.{is_true, is_false, is_unknown, ConditionStatus, configured}
use piraeus_operator.Cluster.{
  PersistentVolume, LinstorSatellite, event, update_volume, list_attachments, list_volumes,
  list_satellites,
}
use piraeus_operator.Cluster.Effect.{
  Api, M, Result, ok, pure, attempt, record_event, fail_if, ask, ◌>>=◌, ◌>>◌,
}
use piraeus_operator.Evacuation.Volumes.{
  wait_annotation, since_annotation, read, to_attached_nodes, subject_of,
}

abbrev pub is_condition_true : ConditionStatus → Bool
is_condition_true is_true = true
is_condition_true is_false = false
is_condition_true is_unknown = false

-- Whether `waitForConfiguredSatellites` waits for a satellite.
unfoldable pub is_unready : String → LinstorSatellite → Bool
is_unready node sat =
    if sat.name == node
    then false
    else if sat.is_deleted
    then false
    else elim (sat.condition configured) [
      | none ↦ true
      | some cond ↦
          if not (eqb cond.observed_generation sat.generation)
          then true
          else not (is_condition_true cond.status)
    ]

-- `EvacuationStrategy`
pub record EvacuationStrategy : Type 0 where
  pub attached_volume_reattach_timeout : ℕ
  pub unattached_volume_attach_timeout : ℕ

-- What the loop of `waitForReattach` does with a volume.
pub data Verdict : Type 0 where
  skip still_waiting moved : Verdict
  timed_out : String → ℕ → Verdict

-- What `waitForConfiguredSatellites` says of the satellites that are listed.
abbrev pub report_unready : String → List LinstorSatellite → M (String × Bool)
report_unready node satellites =
    let unready = map (λ (s : LinstorSatellite). s.name) (select (is_unready node) satellites) in
    if is_empty unready
    then pure ("", true)
    else pure ("Waiting for LinstorSatellites to become ready: " ⧺ join ", " unready, false)

module _ (api : Api) (node : String) where
  unfoldable pub wait_for_configured_satellites : M (String × Bool)
  wait_for_configured_satellites = do
    satellites ← ask list_satellites api.satellites
    report_unready node satellites

  -- `now.Sub(since) >= timeout`
  abbrev pub has_waited : ℕ → ℕ → ℕ → Bool
  has_waited now since timeout = leb (since + timeout) now

  abbrev pub attached_elsewhere : List String → Bool
  attached_elsewhere nodes = not (is_empty nodes || contains nodes node)

  unfoldable pub verdict : EvacuationStrategy → ℕ → ℕ → String → List String → Verdict
  verdict strategy now since mark nodes =
      let placed = if attached_elsewhere nodes then moved else still_waiting in
      let attached = strategy.attached_volume_reattach_timeout in
      let unattached = strategy.unattached_volume_attach_timeout in
      if mark == "true"
      then if has_waited now since attached then timed_out "reattach" attached else placed
      else if mark == "false"
      then if has_waited now since unattached then timed_out "attach" unattached else placed
      else skip

  -- when the volume began to wait, or now
  unfoldable pub waited_since : ℕ → PersistentVolume → Result ℕ
  waited_since now pv = elim (get pv.annotations (since_annotation node)) [
    | none ↦ ok now
    | some text ↦ api.parse_time text
  ]

  abbrev pub without_wait : PersistentVolume → PersistentVolume
  without_wait pv = record pv {
    annotations = remove (remove pv.annotations (since_annotation node)) (wait_annotation node);
  }

  -- what follows from the verdict on a volume, before the `later` volumes
  unfoldable pub handle_verdict :
      PersistentVolume
      → List String
      → M (List PersistentVolume)
      → Verdict
      → M (List PersistentVolume)
  handle_verdict pv nodes later skip = later
  handle_verdict pv nodes later (timed_out verb limit) = do
    record_event (
        event (subject_of pv) "VolumeNotAttachedForEvacuation" (
          "Timed out waiting for Volume to "
          ⧺ verb
          ⧺ " (limit: "
          ⧺ api.format_duration limit
          ⧺ "), proceeding with evacuation"))
    later
  handle_verdict pv nodes later still_waiting = do rest ← later; pure (pv ∷ rest)
  handle_verdict pv nodes later moved = do
    failed ← attempt api (update_volume (without_wait pv))
    fail_if failed
    record_event (
        event (subject_of pv) "VolumeAttachedForEvacuation" (
          "Volume successfully attached on Node(s) ["
          ⧺ join ", " nodes
          ⧺ "], proceeding with evacuation"))
    later

  abbrev pub verdict_on :
      EvacuationStrategy → ℕ → Dict (List String) → PersistentVolume → ℕ → Verdict
  verdict_on strategy now attached pv since =
      verdict strategy now since (read pv.annotations (wait_annotation node))
        (or_else [] (get attached pv.name))

  -- the first loop: the volumes that still wait
  unfoldable pub check_volumes :
      EvacuationStrategy
      → ℕ
      → Dict (List String)
      → List PersistentVolume
      → M (List PersistentVolume)
  check_volumes strategy now attached [] = pure []
  check_volumes strategy now attached (pv ∷ pvs) =
      let later = check_volumes strategy now attached pvs in
      (λ log. (waited_since now pv, log)) >>= (λ since.
        handle_verdict pv (or_else [] (get attached pv.name)) later
          (verdict_on strategy now attached pv since))

  -- the second loop: the start of the wait is written down once
  unfoldable pub stamp_volume : ℕ → PersistentVolume → M (Unit {0})
  stamp_volume now pv =
      if is_some (get pv.annotations (since_annotation node)) then pure tt else (do
        failed ← attempt api (
            update_volume (record pv {
              annotations = put pv.annotations (since_annotation node) (api.format_time now);
            }))
        fail_if failed)

  unfoldable pub stamp_volumes : ℕ → List PersistentVolume → M (List String)
  stamp_volumes now [] = pure []
  stamp_volumes now (pv ∷ pvs) = do
    stamp_volume now pv
    names ← stamp_volumes now pvs
    pure (pv.name ∷ names)

  unfoldable pub wait_for_reattach : EvacuationStrategy → M (String × Bool)
  wait_for_reattach strategy = do
    now ← λ log. (ok (api.now log), log)
    pvs ← ask list_volumes api.volumes
    attachments ← ask list_attachments api.attachments
    waiting ← check_volumes strategy now (to_attached_nodes attachments) pvs
    if is_empty waiting then pure ("", true) else (do
      names ← stamp_volumes now waiting
      pure ("Waiting for PVs to reattach on other nodes: " ⧺ join ", " names, false))
