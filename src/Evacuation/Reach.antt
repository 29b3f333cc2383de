-- ===== src/Evacuation/Reach.antt =====
-- Which calls `evacuateSatellite` of pkg/evacuation/evacuation.go makes.
use piraeus_operator.Base.{
  ℕ, String, Bool, true, false, List, [], ◌∷◌, Option, none, some, ◌≡◌, Dict, or_else, get,
}
use piraeus_operator.Cluster.{
  Call, evacuate, lost_node, delete_node, restore_node, update_satellite, LinstorNode, Machine,
  PersistentVolume, Resource, ApiError,
}
use piraeus_operator.Cluster.Effect.{Api, M, Log, Result, pure, ◌>>=◌, ok, err}
use piraeus_operator.Cluster.Calls.{
  Grows, Grows-trans, Calls, Calls-pure, Calls-bind, Calls-look, Calls-then, Calls-imp, calls_rules,
}
use piraeus_operator.ClusterApi.{
  allow_machine_drain, allow_machine_termination, release_hook, machine_eventf,
}
use piraeus_operator.Evacuation.Prepare.{prepare_pvs_for_evacuation}
use piraeus_operator.Evacuation.Reattach.{
  EvacuationStrategy, Verdict, skip, moved, still_waiting, timed_out,
  wait_for_configured_satellites, wait_for_reattach, check_volumes, stamp_volume, stamp_volumes,
  handle_verdict, verdict_on, waited_since,
}
use piraeus_operator.Evacuation.Relocate.{
  evacuate_node, wait_for_evacuation, clean_pvs_after_evacuation, is_syncing, check_resource,
  clean_volume, clean_volumes,
}
use piraeus_operator.Evacuation.Quiet.{
  IsQuiet, prepare_pvs_for_evacuation-Calls, wait_for_configured_satellites-Calls,
}
use piraeus_operator.Evacuation.Run.{
  after_step, unless_done, once_prepared, once_ready, once_drained, move_resources, clean_up,
  evacuate_satellite,
}

-- No other node is evacuated, and no node is removed or restored, nor a satellite changed.
abbrev pub IsOn : String → Call → Type 0
IsOn node (evacuate n) = n ≡ node
IsOn node (lost_node n) = ⊥
IsOn node (delete_node n) = ⊥
IsOn node (restore_node n) = ⊥
IsOn node (update_satellite n l) = ⊥
IsOn node _ = Unit

pub IsOn-of_IsQuiet : (node : String) (c : Call) → IsQuiet c → IsOn node c
IsOn-of_IsQuiet node (evacuate n) h = elim h [ ]
IsOn-of_IsQuiet node (lost_node n) h = h
IsOn-of_IsQuiet node (delete_node n) h = h
IsOn-of_IsQuiet node (restore_node n) h = h
IsOn-of_IsQuiet node (update_satellite n l) h = h
IsOn-of_IsQuiet node _ h = tt

module _ (api : Api) (node : String) where
  handle_verdict-Calls :
      (pv : PersistentVolume) (nodes : List String) (later : M (List PersistentVolume))
      (v : Verdict)
      → Calls (IsOn node) later
      → Calls (IsOn node) (handle_verdict api node pv nodes later v)
  unfolding handle_verdict
  handle_verdict-Calls pv nodes later skip h = h
  handle_verdict-Calls pv nodes later (timed_out verb limit) h = search (calls_rules, tt)
  handle_verdict-Calls pv nodes later still_waiting h = search calls_rules
  handle_verdict-Calls pv nodes later moved h = search (calls_rules, tt)

  check_volumes-Calls :
      (strategy : EvacuationStrategy) (now : ℕ) (attached : Dict (List String))
      (pvs : List PersistentVolume)
      → Calls (IsOn node) (check_volumes api node strategy now attached pvs)
  unfolding check_volumes
  check_volumes-Calls strategy now attached [] = Calls-pure []
  check_volumes-Calls strategy now attached (pv ∷ pvs) =
      Calls-bind (λ log. (waited_since api node now pv, log))
        (λ since.
          handle_verdict api node pv (or_else [] (get attached pv.name))
            (check_volumes api node strategy now attached pvs)
            (verdict_on api node strategy now attached pv since))
        (Calls-look _)
        (λ since. handle_verdict-Calls pv _ _ _ (check_volumes-Calls strategy now attached pvs))

  stamp_volume-Calls :
      (now : ℕ) (pv : PersistentVolume) → Calls (IsOn node) (stamp_volume api node now pv)
  unfolding stamp_volume
  stamp_volume-Calls now pv = search (calls_rules, tt) depth 12

  stamp_volumes-Calls :
      (now : ℕ) (pvs : List PersistentVolume) → Calls (IsOn node) (stamp_volumes api node now pvs)
  unfolding stamp_volumes
  stamp_volumes-Calls now [] = Calls-pure []
  stamp_volumes-Calls now (pv ∷ pvs) =
      Calls-then (stamp_volume api node now pv)
        (stamp_volumes api node now pvs >>= (λ names. pure (pv.name ∷ names)))
        (stamp_volume-Calls now pv)
        (Calls-bind (stamp_volumes api node now pvs) _ (stamp_volumes-Calls now pvs)
          (λ names. Calls-pure (pv.name ∷ names)))

  pub wait_for_reattach-Calls :
      (strategy : EvacuationStrategy) → Calls (IsOn node) (wait_for_reattach api node strategy)
  unfolding wait_for_reattach
  wait_for_reattach-Calls strategy =
      search (calls_rules, check_volumes-Calls, stamp_volumes-Calls, tt) depth 12

  pub release_hook-Calls :
      (hook reason message : String) (connected : Bool) (machine : Option Machine)
      → Calls (IsOn node) (release_hook api hook reason message connected machine)
  unfolding release_hook machine_eventf
  release_hook-Calls hook reason message false machine = Calls-pure machine
  release_hook-Calls hook reason message true none = Calls-pure none
  release_hook-Calls hook reason message true (some m) = search (calls_rules, tt) depth 12

  check_resource-Calls :
      (found : Bool) (r : Resource) → Calls (IsOn node) (check_resource api found r)
  unfolding check_resource
  check_resource-Calls found r = search (calls_rules, tt) depth 12

  is_syncing-Calls :
      (found : Bool) (rs : List Resource) → Calls (IsOn node) (is_syncing api found rs)
  unfolding is_syncing
  is_syncing-Calls found [] = Calls-pure found
  is_syncing-Calls found (r ∷ rs) =
      Calls-bind (check_resource api found r) (λ b. is_syncing api b rs)
        (check_resource-Calls found r) (λ b. is_syncing-Calls b rs)

  clean_volume-Calls :
      (errs : List ApiError) (pv : PersistentVolume)
      → Calls (IsOn node) (clean_volume api node errs pv)
  unfolding clean_volume
  clean_volume-Calls errs pv = search (calls_rules, tt) depth 12

  clean_volumes-Calls :
      (errs : List ApiError) (pvs : List PersistentVolume)
      → Calls (IsOn node) (clean_volumes api node errs pvs)
  unfolding clean_volumes
  clean_volumes-Calls errs [] = Calls-pure errs
  clean_volumes-Calls errs (pv ∷ pvs) =
      Calls-bind (clean_volume api node errs pv) (λ after. clean_volumes api node after pvs)
        (clean_volume-Calls errs pv) (λ after. clean_volumes-Calls after pvs)

module _ (api : Api) (connected : Bool) (strategy : EvacuationStrategy) (node : LinstorNode) where
  pub evacuate_node-Calls : Calls (IsOn node.name) (evacuate_node api node)
  unfolding evacuate_node
  evacuate_node-Calls = search (calls_rules, is_syncing-Calls, tt) depth 12

  wait_for_evacuation-Calls : Calls (IsOn node.name) (wait_for_evacuation api node.name)
  unfolding wait_for_evacuation
  wait_for_evacuation-Calls = search (calls_rules, tt) depth 12

  clean_pvs-Calls : Calls (IsOn node.name) (clean_pvs_after_evacuation api node.name)
  unfolding clean_pvs_after_evacuation
  clean_pvs-Calls = search (calls_rules, clean_volumes-Calls, tt) depth 12

  after_step-Grows :
      (rest : M (String × Bool))
      → Calls (IsOn node.name) rest
      → (log : Log) (p : Result (String × Bool) × Log) → Grows (IsOn node.name) log p.1
      → Grows (IsOn node.name) log (after_step rest p).1
  after_step-Grows rest kr log (ok (msg, true), mid) h = Grows-trans log mid _ h (kr.at mid)
  after_step-Grows rest kr log (ok (msg, false), mid) h = h
  after_step-Grows rest kr log (err e, mid) h = h

  Calls-unless_done :
      (step rest : M (String × Bool))
      → Calls (IsOn node.name) step
      → Calls (IsOn node.name) rest
      → Calls (IsOn node.name) (unless_done step rest)
  Calls-unless_done step rest ks kr = record {
    at = λ log. after_step-Grows rest kr log (step log) (ks.at log);
  }

  clean_up-Calls :
      (machine : Option Machine)
      → Calls (IsOn node.name) (clean_up api connected strategy node machine)
  unfolding allow_machine_termination
  clean_up-Calls machine = search (calls_rules, clean_pvs-Calls, release_hook-Calls) depth 12

  move_resources-Calls :
      (machine : Option Machine)
      → Calls (IsOn node.name) (move_resources api connected strategy node machine)
  move_resources-Calls machine = Calls-then (evacuate_node api node) _ evacuate_node-Calls (
      Calls-unless_done _ (clean_up api connected strategy node machine) wait_for_evacuation-Calls
        (clean_up-Calls machine))

  once_ready-Calls :
      (machine : Option Machine)
      → Calls (IsOn node.name) (once_ready api connected strategy node machine)
  unfolding allow_machine_drain
  once_ready-Calls machine =
      Calls-bind (allow_machine_drain api connected machine)
        (once_drained api connected strategy node)
        (release_hook-Calls api node.name _ _ _ connected machine)
        (λ m.
          Calls-unless_done _ (move_resources api connected strategy node m)
            (wait_for_reattach-Calls api node.name strategy) (move_resources-Calls m))

  -- An evacuation tells LINSTOR to evacuate no node but the satellite's own. It removes no node from
  -- LINSTOR, restores none and does not update the satellite.
  pub evacuate_satellite-IsOn :
      (machine : Option Machine)
      → Calls (IsOn node.name) (evacuate_satellite api connected strategy node machine)
  unfolding evacuate_satellite
  evacuate_satellite-IsOn machine =
      Calls-unless_done (prepare_pvs_for_evacuation api node.name)
        (once_prepared api connected strategy node machine)
        (Calls-imp _ (IsOn-of_IsQuiet node.name) (prepare_pvs_for_evacuation-Calls api node.name))
        (Calls-unless_done (wait_for_configured_satellites api node.name)
          (once_ready api connected strategy node machine)
          (Calls-imp _ (IsOn-of_IsQuiet node.name)
            (wait_for_configured_satellites-Calls api node.name))
          (once_ready-Calls machine))
