-- ===== src/Evacuation/Finish.antt =====
-- When `evacuateSatellite` of pkg/evacuation/evacuation.go reports success.
use piraeus_operator.Base.{
  String, Bool, true, false, List, [], ◌∷◌, ◌++◌, Option, ◌≡◌, refl, ◌∙◌, ap,
}
use piraeus_operator.Cluster.{view_resources, view_snapshots, LinstorNode, Machine, Resource}
use piraeus_operator.Cluster.Effect.{Api, M, Log, Result, continue, ask, ◌>>=◌, ok, err}
use piraeus_operator.Cluster.Calls.{Grows, Grows-trans, Calls-imp}
use piraeus_operator.ClusterApi.{allow_machine_drain}
use piraeus_operator.Evacuation.Prepare.{prepare_pvs_for_evacuation, unless_missing}
use piraeus_operator.Evacuation.Reattach.{
  EvacuationStrategy, wait_for_configured_satellites, wait_for_reattach,
}
use piraeus_operator.Evacuation.Relocate.{evacuate_node, wait_for_evacuation, report_remaining}
use piraeus_operator.Evacuation.Quiet.{
  prepare_pvs_for_evacuation-Calls, wait_for_configured_satellites-Calls,
}
use piraeus_operator.Evacuation.Gate.{HasPassed}
use piraeus_operator.Evacuation.Run.{
  after_step, unless_done, once_prepared, once_ready, once_drained, move_resources, clean_up,
  evacuate_satellite,
}
use piraeus_operator.Evacuation.Reach.{
  IsOn, IsOn-of_IsQuiet, release_hook-Calls, wait_for_reattach-Calls, evacuate_node-Calls,
}

-- What a passing action went through.
bind_passed :
    {A : Type 0} (f : A → M (String × Bool)) (p : Result A × Log)
    → HasPassed (continue f p).0
    → (a : A) × (p.0 ≡ ok a) × HasPassed (f a p.1).0
bind_passed f (ok a, log) h = (a, refl, h)
bind_passed f (err e, log) h = elim h [ ]

step_passed :
    (rest : M (String × Bool)) (p : Result (String × Bool) × Log)
    → HasPassed (after_step rest p).0
    → HasPassed (rest p.1).0
step_passed rest (ok (msg, true), log) h = h
step_passed rest (ok (msg, false), log) h = elim h [ ]
step_passed rest (err e, log) h = elim h [ ]

before_passed :
    (rest : M (String × Bool)) (p : Result (String × Bool) × Log)
    → HasPassed (after_step rest p).0
    → HasPassed p.0
before_passed rest (ok (msg, true), log) h = tt
before_passed rest (ok (msg, false), log) h = h
before_passed rest (err e, log) h = h

remaining_passed :
    (ress : List Resource) (snaps : List String) (log : Log)
    → HasPassed (report_remaining ress snaps log).0
    → (ress ≡ []) × (snaps ≡ [])
remaining_passed [] [] log h = (refl, refl)
remaining_passed [] (s ∷ snaps) log h = elim h [ ]
remaining_passed (r ∷ ress) snaps log h = elim h [ ]

module _ (api : Api) (node : String) where
  -- LINSTOR showed no resource on the node, and right after that no snapshot.
  abbrev pub IsVacant : Log → Type 0
  IsVacant log =
      (unless_missing (api.resources node log) ≡ ok [])
      × (unless_missing (api.snapshots node (log ++ view_resources node ∷ [])) ≡ ok [])

  wait_for_evacuation-IsVacant :
      (log : Log) → HasPassed (wait_for_evacuation api node log).0 → IsVacant log
  unfolding wait_for_evacuation
  wait_for_evacuation-IsVacant log h =
      let mid = log ++ view_resources node ∷ [] in
      let after = mid ++ view_snapshots node ∷ [] in
      let (ress, e, h') =
        bind_passed
          (λ ress.
            ask (view_snapshots node) (λ l. unless_missing (api.snapshots node l))
            >>= report_remaining ress)
          (unless_missing (api.resources node log), mid) h in
      let (snaps, e', h'') =
        bind_passed (report_remaining ress) (unless_missing (api.snapshots node mid), after) h' in
      let (none_left, no_snapshot) = remaining_passed ress snaps after h'' in
      (e ∙ ap ok none_left, e' ∙ ap ok no_snapshot)

module _ (api : Api) (connected : Bool) (strategy : EvacuationStrategy) (node : LinstorNode) where
  once_ready-IsVacant :
      (machine : Option Machine) (log : Log)
      → HasPassed (once_ready api connected strategy node machine log).0
      → (mid : Log) × Grows (IsOn node.name) log mid × IsVacant api node.name mid
  unfolding allow_machine_drain
  once_ready-IsVacant machine log h =
      let drain = allow_machine_drain api connected machine in
      let drained = drain log in
      let (m, _, h1) = bind_passed (once_drained api connected strategy node) drained h in
      let reattached = wait_for_reattach api node.name strategy drained.1 in
      let h2 = step_passed (move_resources api connected strategy node m) reattached h1 in
      let told = evacuate_node api node reattached.1 in
      let (_, _, h3) =
        bind_passed
          (λ _.
            unless_done (wait_for_evacuation api node.name)
              (clean_up api connected strategy node m))
          told h2 in
      (
        told.1,
        Grows-trans log drained.1 told.1
            ((release_hook-Calls api node.name _ _ _ connected machine).at log)
            (Grows-trans drained.1 reattached.1 told.1
              ((wait_for_reattach-Calls api node.name strategy).at drained.1)
              ((evacuate_node-Calls api connected strategy node).at reattached.1)),
        wait_for_evacuation-IsVacant api node.name told.1
            (before_passed _ (wait_for_evacuation api node.name told.1) h3),
      )

  -- An evacuation that reports success saw, at some point of its calls, no resource of the satellite
  -- and right after that no snapshot of it left in LINSTOR.
  pub evacuate_satellite-IsVacant :
      (machine : Option Machine) (log : Log)
      → HasPassed (evacuate_satellite api connected strategy node machine log).0
      → (mid : Log) × Grows (IsOn node.name) log mid × IsVacant api node.name mid
  unfolding evacuate_satellite
  evacuate_satellite-IsVacant machine log h =
      let prepared = prepare_pvs_for_evacuation api node.name log in
      let ready = wait_for_configured_satellites api node.name prepared.1 in
      let h1 = step_passed (once_prepared api connected strategy node machine) prepared h in
      let h2 = step_passed (once_ready api connected strategy node machine) ready h1 in
      let (mid, grows, vacant) = once_ready-IsVacant machine ready.1 h2 in
      let quiet = IsOn-of_IsQuiet node.name in
      (
        mid,
        Grows-trans log prepared.1 mid
            ((Calls-imp _ quiet (prepare_pvs_for_evacuation-Calls api node.name)).at log)
            (Grows-trans prepared.1 ready.1 mid
              ((Calls-imp _ quiet (wait_for_configured_satellites-Calls api node.name)).at
                prepared.1)
              grows),
        vacant,
      )
