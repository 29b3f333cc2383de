-- ===== src/Evacuation/Run.antt =====
-- The evacuation of a satellite as a whole: `evacuateSatellite` and `EvacuateSatellite` of
-- pkg/evacuation/evacuation.go.
use piraeus_operator.Base.{
  ℕ, zero, suc, ◌+◌, String, Bool, true, false, Option, none, some, ◌⧺◌, if◌then◌else◌, decimal,
}
use piraeus_operator.Conditions.{Conditions, add_error, add_waiting, add_in_progress, add_completed}
use piraeus_operator.Cluster.{LinstorNode, Machine, list_satellites}
use piraeus_operator.Cluster.Effect.{Api, M, Log, Result, ok, err, pure, ask, ◌>>=◌, ◌>>◌}
use piraeus_operator.ClusterApi.{allow_machine_drain, allow_machine_termination}
use piraeus_operator.Evacuation.Admission.{
  Admission, admit_evacuation, satellite_evacuated_condition,
}
use piraeus_operator.Evacuation.Prepare.{prepare_pvs_for_evacuation}
use piraeus_operator.Evacuation.Reattach.{
  EvacuationStrategy, wait_for_configured_satellites, wait_for_reattach,
}
use piraeus_operator.Evacuation.Relocate.{
  evacuate_node, wait_for_evacuation, clean_pvs_after_evacuation,
}

-- `if err != nil || !done { return msg, done, err }`
abbrev pub after_step :
    M (String × Bool) → Result (String × Bool) × Log → Result (String × Bool) × Log
after_step rest (ok (msg, true), log) = rest log
after_step rest (ok (msg, false), log) = (ok (msg, false), log)
after_step rest (err e, log) = (err e, log)

abbrev pub unless_done : M (String × Bool) → M (String × Bool) → M (String × Bool)
unless_done step rest log = after_step rest (step log)

module _ (api : Api) (connected : Bool) (strategy : EvacuationStrategy) (node : LinstorNode) where
  abbrev pub clean_up : Option Machine → M (String × Bool)
  clean_up machine = do
    clean_pvs_after_evacuation api node.name
    allow_machine_termination api connected machine
    pure ("", true)

  abbrev pub move_resources : Option Machine → M (String × Bool)
  move_resources machine = do
    evacuate_node api node
    unless_done (wait_for_evacuation api node.name) (clean_up machine)

  abbrev pub once_drained : Option Machine → M (String × Bool)
  once_drained machine =
      unless_done (wait_for_reattach api node.name strategy) (move_resources machine)

  abbrev pub once_ready : Option Machine → M (String × Bool)
  once_ready machine = allow_machine_drain api connected machine >>= once_drained

  abbrev pub once_prepared : Option Machine → M (String × Bool)
  once_prepared machine =
      unless_done (wait_for_configured_satellites api node.name) (once_ready machine)

  unfoldable pub evacuate_satellite : Option Machine → M (String × Bool)
  evacuate_satellite machine =
      unless_done (prepare_pvs_for_evacuation api node.name) (once_prepared machine)

  -- `admitEvacuation` with its listing. Without a limit nothing is listed.
  unfoldable pub admit : ℕ → M Admission
  admit zero = pure (record { admitted = true; position = some 0; total = 0 })
  admit (suc limit) = do
    satellites ← ask list_satellites api.satellites
    λ log. (ok (admit_evacuation node.name (suc limit) (api.now log) satellites), log)

  -- The message of a satellite that waits. A position that is not found is -1.
  abbrev pub waiting_message : Admission → ℕ → String
  waiting_message a limit =
      "Waiting for a free evacuation slot (position "
      ⧺ decimal (elim a.position [ none ↦ 0 | some p ↦ p + 1 ])
      ⧺ " of "
      ⧺ decimal a.total
      ⧺ " candidates, limit "
      ⧺ decimal limit
      ⧺ ")"

  abbrev pub report : Conditions → Result (String × Bool) → Result Bool × Conditions
  report conds (err e) = (err e, add_error conds satellite_evacuated_condition e.text)
  report conds (ok (msg, false)) =
      (ok false, add_in_progress conds satellite_evacuated_condition msg)
  report conds (ok (msg, true)) =
      (ok true, add_completed conds satellite_evacuated_condition "LINSTOR Satellite evacuated")

  abbrev pub proceed :
      Option Machine → Conditions → ℕ → Result Admission × Log → (Result Bool × Conditions) × Log
  proceed machine conds limit (err e, log) =
      ((err e, add_error conds satellite_evacuated_condition e.text), log)
  proceed machine conds limit (ok a, log) =
      if a.admitted
      then (let (r, after) = evacuate_satellite machine log in (report conds r, after))
      else (
        (ok false, add_waiting conds satellite_evacuated_condition (waiting_message a limit)),
        log,
      )

  -- `EvacuateSatellite`, with the conditions as it leaves them.
  unfoldable pub run : Option Machine → Conditions → ℕ → Log → (Result Bool × Conditions) × Log
  unfolding admit
  run machine conds limit log = proceed machine conds limit (admit limit log)
