-- ===== src/Satellite/Release.antt =====
-- When `deleteSatellite` of internal/controller/linstorsatellite_controller.go lets a satellite go.
use piraeus_operator.Base.{
  ℕ, zero, suc, String, Bool, true, false, Option, none, some, Dict, contains, ◌≡◌, ◌⊎◌, refl,
  subst, sym, not, Bool-cases, inl, inr, arith,
}
use piraeus_operator.Conditions.{Conditions}
use piraeus_operator.Cluster.{
  Call, lost_node, delete_node, update_satellite, get_node, LinstorNode, Machine, list_satellites,
}
use piraeus_operator.Cluster.Effect.{Api, M, Log, Result, ok, err, ask}
use piraeus_operator.Cluster.Calls.{
  Grows, Grows-trans, Grows-imp, Calls, Calls-imp, calls_rules, Calls-pure,
}
use piraeus_operator.Cluster.Linstor.{LinstorApi}
use piraeus_operator.LinstorHelper.Client.{LinstorClient, new_client_for_cluster}
use piraeus_operator.ClusterApi.{get_machine_for_node}
use piraeus_operator.Evacuation.Admission.{Admission}
use piraeus_operator.Evacuation.Reattach.{EvacuationStrategy}
use piraeus_operator.Evacuation.Run.{run, admit, proceed, report, evacuate_satellite}
use piraeus_operator.Evacuation.Gate.{HasPassed}
use piraeus_operator.Evacuation.Reach.{IsOn, evacuate_satellite-IsOn}
use piraeus_operator.Evacuation.Finish.{IsVacant, evacuate_satellite-IsVacant}
use piraeus_operator.Satellite.Deletion.{
  evacuate_policy, SatelliteObject, Outcome, satellite_finalizer, delete_satellite, by_policy,
  for_client, for_machine, evacuate_found, once_evacuated, max_concurrent_evacuations, if_found,
}
use piraeus_operator.Satellite.Looks.{
  IsLook, get_machine_for_node-Calls, new_client_for_cluster-Calls, unless_failed_lem,
}

-- No node is removed from LINSTOR, and no satellite is changed.
abbrev pub IsHeld : Call → Type 0
IsHeld (lost_node n) = ⊥
IsHeld (delete_node n) = ⊥
IsHeld (update_satellite n l) = ⊥
IsHeld _ = Unit

IsHeld-of_IsOn : (node : String) (c : Call) → IsOn node c → IsHeld c
IsHeld-of_IsOn node (lost_node n) h = h
IsHeld-of_IsOn node (delete_node n) h = h
IsHeld-of_IsOn node (update_satellite n l) h = h
IsHeld-of_IsOn node _ h = tt

IsHeld-of_IsLook : (c : Call) → IsLook c → IsHeld c
IsHeld-of_IsLook (lost_node n) h = h
IsHeld-of_IsLook (delete_node n) h = h
IsHeld-of_IsLook (update_satellite n l) h = h
IsHeld-of_IsLook _ h = tt

module _ (api : Api) (connected : Bool) (strategy : EvacuationStrategy) (node : LinstorNode) where
  report_passed :
      (conds : Conditions) (r : Result (String × Bool))
      → (report api connected strategy node conds r).0 ≡ ok true
      → HasPassed r
  report_passed conds (err e) h = ground arith
  report_passed conds (ok (msg, false)) h = ground arith
  report_passed conds (ok (msg, true)) h = tt

  -- After some calls that hold the satellite, LINSTOR has nothing left on the node.
  abbrev pub Vacated : Log → Type 0
  Vacated start = (mid : Log) × Grows IsHeld start mid × IsVacant api node.name mid

  module _ (P : Call → Type 0) (on : (c : Call) → IsOn node.name c → P c) where
    admit-Calls : (limit : ℕ) → Calls P (admit api connected strategy node limit)
    unfolding admit
    admit-Calls zero = search calls_rules
    admit-Calls (suc limit) = search (calls_rules, on list_satellites tt)

    proceed-Grows :
        (machine : Option Machine) (conds : Conditions) (limit : ℕ) (start : Log)
        (p : Result Admission × Log)
        → Grows P start p.1
        → Grows P start (proceed api connected strategy node machine conds limit p).1
    proceed-Grows machine conds limit start (err e, log) h = h
    proceed-Grows machine conds limit start (ok a, log) h = elim (Bool-cases a.admitted) [
      | inl e ↦ rw e (
          Grows-trans start log _ h
            ((Calls-imp _ on (evacuate_satellite-IsOn api connected strategy node machine)).at log))
      | inr e ↦ rw e h
    ]

    pub run-Grows :
        (machine : Option Machine) (conds : Conditions) (limit : ℕ) (log : Log)
        → Grows P log (run api connected strategy node machine conds limit log).1
    unfolding run
    run-Grows machine conds limit log =
        proceed-Grows machine conds limit log (admit api connected strategy node limit log)
          ((admit-Calls limit).at log)

  proceed_passed :
      (machine : Option Machine) (conds : Conditions) (limit : ℕ) (start : Log)
      (p : Result Admission × Log)
      → Grows IsHeld start p.1
      → (proceed api connected strategy node machine conds limit p).0.0 ≡ ok true
      → Vacated start
  proceed_passed machine conds limit start (err e, log) g h = absurd (ground arith)
  proceed_passed machine conds limit start (ok a, log) g h = elim (Bool-cases a.admitted) [
    | inl e ↦
        let h' : (report api connected strategy node conds
              (evacuate_satellite api connected strategy node machine log).0).0
            ≡ ok true =
          rw e at h in
        let (mid, grown, vacant) =
          evacuate_satellite-IsVacant api connected strategy node machine log
            (report_passed conds _ h') in
        (
          mid,
          Grows-trans start log mid g (Grows-imp log mid (IsHeld-of_IsOn node.name) grown),
          vacant,
        )
    | inr e ↦ let h' : ok false ≡ ok true = rw e at h in absurd (ground arith)
  ]

  -- An evacuation that lets the deletion go on has emptied the node.
  run_passed :
      (machine : Option Machine) (conds : Conditions) (limit : ℕ) (log : Log)
      → (run api connected strategy node machine conds limit log).0.0 ≡ ok true
      → Vacated log
  unfolding run
  run_passed machine conds limit log h =
      proceed_passed machine conds limit log (admit api connected strategy node limit log)
        ((admit-Calls IsHeld (IsHeld-of_IsOn node.name) limit).at log) h

module _ (api : Api) (lin : LinstorApi) (connected : Bool) (sat : SatelliteObject)
    (start : Log) where
  -- At some point, after calls that hold the satellite, `P` holds.
  abbrev pub Sees : (Log → Type 0) → Type 0
  Sees P = (mid : Log) × Grows IsHeld start mid × P mid

  -- There is no client for LINSTOR, LINSTOR does not know the node, or it showed the node empty.
  abbrev pub MayRelease : Type 0
  MayRelease =
      Sees (λ l. (new_client_for_cluster lin sat.cluster_ref l).0 ≡ ok none)
      ⊎ Sees (λ l. if_found (lin.node sat.name l) ≡ ok none)
      ⊎ (node : LinstorNode) × Sees (λ l. if_found (lin.node sat.name l) ≡ ok (some node))
        × Sees (IsVacant api node.name)

  abbrev Goal : Outcome → Type 0
  Goal o = Grows IsHeld start o.1 ⊎ MayRelease

  abbrev extend :
      {A : Type 0} (m : M A) (log : Log)
      → Grows IsHeld start log
      → Calls IsHeld m
      → Grows IsHeld start (m log).1
  extend m log g h = Grows-trans start log (m log).1 g (h.at log)

  once_evacuated_held :
      (o : Outcome)
      → Grows IsHeld start o.1
      → (o.0.0 ≡ ok true → MayRelease)
      → Goal (once_evacuated api lin connected sat o)
  once_evacuated_held ((ok true, conds), log) g h = inr (h refl)
  once_evacuated_held ((ok false, conds), log) g h = inl g
  once_evacuated_held ((err e, conds), log) g h = inl g

  evacuate_found_held :
      (machine : Option Machine) (conds : Conditions) (seen : Log) (found : Option LinstorNode)
      (log : Log)
      → Grows IsHeld start seen
      → if_found (lin.node sat.name seen) ≡ ok found
      → Grows IsHeld start log
      → Goal (evacuate_found api lin connected sat machine conds found log)
  evacuate_found_held machine conds seen none log gs e g = inr (inr (inl (seen, gs, e)))
  evacuate_found_held machine conds seen (some node) log gs e g =
      let asked = max_concurrent_evacuations api lin connected sat log in
      let g' =
        extend (max_concurrent_evacuations api lin connected sat) log g
          (search (calls_rules, tt)) in
      unless_failed_lem Goal conds
        (λ limit at.
          once_evacuated api lin connected sat
            (run api connected sat.evacuation_strategy node machine conds limit at))
        asked (λ r. inl g')
        (λ limit _.
          once_evacuated_held _
            (Grows-trans start asked.1 _ g' (
              run-Grows api connected sat.evacuation_strategy node IsHeld (IsHeld-of_IsOn node.name)
                machine conds limit asked.1))
            (λ done.
              let (mid, grown, vacant) =
                run_passed api connected sat.evacuation_strategy node machine conds limit asked.1
                  done in
              inr
                (inr (node, (seen, gs, e), (mid, Grows-trans start asked.1 mid g' grown, vacant)))))

  by_policy_held :
      (machine : Option Machine) (conds : Conditions) (log : Log)
      → Grows IsHeld start log
      → Goal (by_policy api lin connected sat evacuate_policy machine conds log)
  unfolding by_policy
  by_policy_held machine conds log g =
      let look = ask (get_node sat.name) (λ at. if_found (lin.node sat.name at)) in
      let g' = extend look log g (search (calls_rules, tt)) in
      unless_failed_lem Goal conds (evacuate_found api lin connected sat machine conds) (look log)
        (λ r. inl g') (λ found e. evacuate_found_held machine conds log found (look log).1 g e g')

  for_client_held :
      (machine : Option Machine) (conds : Conditions) (seen : Log) (client : Option LinstorClient)
      (log : Log)
      → sat.deletion_policy ≡ evacuate_policy
      → Grows IsHeld start seen
      → (new_client_for_cluster lin sat.cluster_ref seen).0 ≡ ok client
      → Grows IsHeld start log
      → Goal (for_client api lin connected sat machine conds client log)
  for_client_held machine conds seen none log p gs e g = inr (inl (seen, gs, e))
  for_client_held machine conds seen (some client) log p gs e g =
      subst (λ q. Goal (by_policy api lin connected sat q machine conds log)) (sym p)
        (by_policy_held machine conds log g)

  for_machine_held :
      (conds : Conditions) (machine : Option Machine) (log : Log)
      → sat.deletion_policy ≡ evacuate_policy
      → Grows IsHeld start log
      → Goal (for_machine api lin connected sat conds machine log)
  for_machine_held conds machine log p g =
      let look = new_client_for_cluster lin sat.cluster_ref in
      let g' =
        extend look log g
          (Calls-imp _ IsHeld-of_IsLook (new_client_for_cluster-Calls lin sat.cluster_ref)) in
      unless_failed_lem Goal conds (for_client api lin connected sat machine conds) (look log)
        (λ r. inl g') (λ client e. for_client_held machine conds log client (look log).1 p g e g')

  -- The deletion of a satellite whose policy is to evacuate neither updates a satellite, and so takes
  -- off no finalizer, nor removes a node from LINSTOR, unless before that there was no client for the
  -- cluster, LINSTOR did not know the node, or LINSTOR knew it and then showed no resource and no
  -- snapshot on it.
  pub delete_satellite-held :
      (annotations : Dict String) (conds : Conditions)
      → sat.deletion_policy ≡ evacuate_policy
      → Grows IsHeld start (delete_satellite api lin connected sat annotations conds start).1
        ⊎ MayRelease
  unfolding delete_satellite
  delete_satellite-held annotations conds p =
      let look = get_machine_for_node api connected annotations in
      let g =
        (Calls-imp _ IsHeld-of_IsLook (get_machine_for_node-Calls api connected annotations)).at
          start in
      elim (Bool-cases (not (contains sat.finalizers satellite_finalizer))) [
        | inl e ↦ rw e (inl ((Calls-pure tt).at start))
        | inr e ↦ rw e (
            unless_failed_lem Goal conds (for_machine api lin connected sat conds) (look start)
              (λ r. inl g) (λ machine _. for_machine_held conds machine (look start).1 p g))
      ]
