-- ===== src/Evacuation/Tests.antt =====
-- The evacuation of pkg/evacuation/evacuation.go on a small cluster, and its theorems there.
use piraeus_operator.Base.{
  true, false, [], ◌∷◌, none, some, ◌≡◌, refl, inl, ◌⊎◌, map, select, get, remove, put, sort,
  insert, ◌==◌, length, List, All, ◌&&◌, ◌≤◌, arith,
}
use piraeus_operator.Conditions.{new}
use piraeus_operator.Cluster.{update_volume, PersistentVolume, LinstorSatellite}
use piraeus_operator.Cluster.Effect.{Api, ok, Log}
use piraeus_operator.Cluster.Calls.{Calls, Grows}
use piraeus_operator.Evacuation.Volumes.{
  read, pvs_by_linstor_resource, pvs_from, evacuation_action_for_pv, default_action,
  has_local_only_access_policy, attachments_by_pv, attachments_from, to_attached_nodes,
  attached_from, is_attachable_on_other_node,
}
use piraeus_operator.ClusterApi.{
  allow_machine_drain, allow_machine_termination, release_hook, machine_eventf,
}
use piraeus_operator.Evacuation.Reattach.{
  wait_for_configured_satellites, is_unready, wait_for_reattach, check_volumes, waited_since,
  verdict, handle_verdict, stamp_volumes,
}
use piraeus_operator.Evacuation.Relocate.{
  is_marked, cleaned, evacuate_node, is_syncing, check_resource, wait_for_evacuation,
  clean_pvs_after_evacuation, clean_volumes, clean_volume,
}
use piraeus_operator.Evacuation.Gate.{IsKept, HasPassed, AllReady, evacuate_satellite-gate}
use piraeus_operator.Evacuation.Reach.{IsOn, evacuate_satellite-IsOn}
use piraeus_operator.Evacuation.Quiet.{IsQuiet}
use piraeus_operator.Evacuation.Finish.{IsVacant, evacuate_satellite-IsVacant}
use piraeus_operator.Evacuation.Outcomes.{
  clean_volumes_lem, clean_volumes-stored, run-limit, stored, IsCleanOf, acts,
}
use piraeus_operator.Evacuation.Stuck.{prepare_pvs_for_evacuation-HasPassed}
use piraeus_operator.Evacuation.Syncing.{evacuate_node-IsQuiet}
use piraeus_operator.Evacuation.Run.{evacuate_satellite, run, admit}
use piraeus_operator.Evacuation.Admission.Candidates.{is_candidate, HasUniqueNames}
use piraeus_operator.Evacuation.Admission.{admit_evacuation, candidates, gather}
use piraeus_operator.Evacuation.Prepare.{
  prepare_pvs_for_evacuation, diskful_resources_on_node, prepare_all, prepare_volume, mark_waiting,
  take_action, finish_volume,
}
use piraeus_operator.Evacuation.Sample.{
  names, pv, replaced, sat, leaving, busy, api, node, fresh_node, strategy, hooked,
}

evacuate_satellite-gate_example :
    IsKept [] (evacuate_satellite api true strategy fresh_node (some hooked) []).1
    ⊎ HasPassed (prepare_pvs_for_evacuation api "n1" []).0
      × AllReady api "n1" (prepare_pvs_for_evacuation api "n1" []).1
evacuate_satellite-gate_example =
    evacuate_satellite-gate api true strategy fresh_node (some hooked) []

evacuate_satellite-IsOn_example :
    Calls (IsOn "n1") (evacuate_satellite api true strategy fresh_node (some hooked))
evacuate_satellite-IsOn_example = evacuate_satellite-IsOn api true strategy fresh_node (some hooked)

passes : HasPassed (evacuate_satellite api true strategy fresh_node (some hooked) []).0
unfolding evacuate_satellite prepare_pvs_for_evacuation get put remove diskful_resources_on_node
    prepare_all prepare_volume mark_waiting take_action finish_volume pvs_by_linstor_resource
    pvs_from evacuation_action_for_pv default_action has_local_only_access_policy attachments_by_pv
    attachments_from to_attached_nodes attached_from is_attachable_on_other_node
    wait_for_configured_satellites is_unready wait_for_reattach check_volumes waited_since verdict
    handle_verdict stamp_volumes evacuate_node is_syncing check_resource wait_for_evacuation
    clean_pvs_after_evacuation clean_volumes clean_volume allow_machine_drain
    allow_machine_termination release_hook machine_eventf
passes = tt

evacuate_satellite-IsVacant_example : (mid : Log) × Grows (IsOn "n1") [] mid × IsVacant api "n1" mid
evacuate_satellite-IsVacant_example =
    evacuate_satellite-IsVacant api true strategy fresh_node (some hooked) [] passes

moves : (read replaced.props "MigrateFrom" == "") ≡ false
unfolding get
moves = refl

evacuate_node-IsQuiet_example : Grows IsQuiet [] (evacuate_node api node []).1
evacuate_node-IsQuiet_example =
    evacuate_node-IsQuiet api node [] (replaced ∷ []) replaced refl refl (inl refl)
      (moves, λ log. refl)

abbrev marked : PersistentVolume
marked = record pv {
  annotations =
      ("wait-for-reattach.evacuation.piraeus.io/n1", "true")
      ∷ ("owner", "me")
      ∷ ("wait-for-reattach.evacuation.piraeus.io/n2", "true")
      ∷ [];
}

clean_volumes_lem_example :
    (clean_volumes api "n1" [] (marked ∷ pv ∷ []) []).1
    ≡ map (λ v. update_volume (cleaned api "n1" v)) (select (is_marked api "n1") (marked ∷ pv ∷ []))
clean_volumes_lem_example = clean_volumes_lem api "n1" (marked ∷ pv ∷ []) [] []

-- The annotation of another node stays.
one_update :
    (clean_volumes api "n1" [] (marked ∷ pv ∷ []) []).1
    ≡ update_volume (record pv {
      annotations = ("owner", "me") ∷ ("wait-for-reattach.evacuation.piraeus.io/n2", "true") ∷ [];
    })
      ∷ []
unfolding clean_volumes clean_volume get remove
one_update = refl

clean_volumes-stored_example :
    (clean_volumes api "n1" [] (map (stored api "n1") (marked ∷ pv ∷ [])) [] ≡ (ok [], []))
    × All (λ v. IsCleanOf api "n1" (stored api "n1" v) v) (marked ∷ pv ∷ [])
clean_volumes-stored_example = clean_volumes-stored api "n1" (marked ∷ pv ∷ []) [] []

abbrev cluster : List LinstorSatellite
cluster = leaving ∷ sat "n2" ∷ busy ∷ []

cluster-HasUniqueNames : HasUniqueNames cluster
cluster-HasUniqueNames = (((refl, refl), ((refl, refl), tt)), (((refl, refl), tt), (tt, tt)))

-- The first satellite waits while the last one is at work.
waits_outside : acts api true strategy (λ n. []) (λ n. none) (λ n. new) 1 [] "n1" ≡ false
unfolding run admit admit_evacuation candidates gather sort insert
waits_outside = refl

run-limit_example :
    length (
      select
        (λ s. is_candidate s && acts api true strategy (λ n. []) (λ n. none) (λ n. new) 1 [] s.name)
        cluster)
    ≤ 1
run-limit_example =
    run-limit api true strategy (λ n. []) (λ n. none) (λ n. new) 1 [] cluster (omega arith)
      cluster-HasUniqueNames refl

-- A volume with an explicit action, which has been made reschedulable already.
abbrev chosen : PersistentVolume
chosen = record pv {
  annotations =
      ("linstor.csi.linbit.com/evacuation-action", "AffinityOverride")
      ∷ ("affinity-override.linstor.csi.linbit.com/n1", "true")
      ∷ [];
}

abbrev stuck_api : Api
stuck_api = record api {
  volumes = λ log. ok (chosen ∷ []);
  resources = λ n log. (replaced ∷ [], none);
}

chosen_found : get (pvs_by_linstor_resource names (chosen ∷ [])) "r1" ≡ some chosen
unfolding pvs_by_linstor_resource pvs_from get put
chosen_found = refl

chosen_action :
    get chosen.annotations "linstor.csi.linbit.com/evacuation-action" ≡ some "AffinityOverride"
unfolding get
chosen_action = refl

prepare_pvs_for_evacuation-HasPassed_example :
    ¬ HasPassed (prepare_pvs_for_evacuation stuck_api "n1" []).0
prepare_pvs_for_evacuation-HasPassed_example =
    prepare_pvs_for_evacuation-HasPassed stuck_api "n1" refl refl (chosen ∷ []) (replaced ∷ []) "r1"
      chosen (λ log. refl) (λ log. refl) (inl refl) chosen_found chosen_action []
