-- ===== src/Evacuation/Gate.antt =====
-- What has to hold before `evacuateSatellite` of pkg/evacuation/evacuation.go touches a node, and when
-- it reports success.
use piraeus_operator.Base.{
  String, Bool, true, false, List, [], ◌∷◌, ◌++◌, Option, ◌≡◌, refl, ◌⊎◌, Bool-cases, arith, inl,
  inr, if◌then◌else◌, All, select, is_empty, map,
}
use piraeus_operator.Cluster.{LinstorSatellite, LinstorNode, Machine, list_satellites}
use piraeus_operator.Cluster.Effect.{Api, M, Log, Result, ok, err, pure, continue}
use piraeus_operator.Cluster.Calls.{Grows, Grows-trans}
use piraeus_operator.Evacuation.Prepare.{prepare_pvs_for_evacuation}
use piraeus_operator.Evacuation.Reattach.{
  EvacuationStrategy, wait_for_configured_satellites, is_unready, report_unready,
}
use piraeus_operator.Evacuation.Quiet.{
  IsQuiet, prepare_pvs_for_evacuation-Calls, wait_for_configured_satellites-Calls,
}
use piraeus_operator.Evacuation.Run.{after_step, once_prepared, once_ready, evacuate_satellite}

-- An action returned that it is done.
abbrev pub HasPassed : Result (String × Bool) → Type 0
HasPassed (ok (msg, true)) = Unit
HasPassed (ok (msg, false)) = ⊥
HasPassed (err e) = ⊥

-- A step stops the evacuation, or it is done and the rest follows.
pub after_step-cases :
    (rest : M (String × Bool)) (p : Result (String × Bool) × Log)
    → ((after_step rest p).1 ≡ p.1) × ¬ HasPassed (after_step rest p).0
      ⊎ HasPassed p.0 × (after_step rest p ≡ rest p.1)
after_step-cases rest (ok (msg, true), log) = inr (tt, refl)
after_step-cases rest (ok (msg, false), log) = inl (refl, λ h. h)
after_step-cases rest (err e, log) = inl (refl, λ h. h)

-- The calls between two logs leave the node and its machine alone.
abbrev pub IsKept : Log → Log → Type 0
IsKept before after = Grows IsQuiet before after

none_selected :
    (p : LinstorSatellite → Bool) (xs : List LinstorSatellite)
    → is_empty (map (λ (s : LinstorSatellite). s.name) (select p xs)) ≡ true
    → All (λ s. p s ≡ false) xs
none_selected p [] h = tt
none_selected p (x ∷ xs) h = elim (Bool-cases (p x)) [
  | inl e ↦ ground arith
  | inr e ↦ (e, ground (arith, none_selected p xs))
]

module _ (api : Api) (node : String) where
  -- Every other satellite that is not being deleted is configured at its latest generation.
  abbrev pub AllReady : Log → Type 0
  AllReady log =
      (satellites : List LinstorSatellite) × (api.satellites log ≡ ok satellites)
      × All (λ s. is_unready node s ≡ false) satellites

  passed_only_if :
      (b : Bool) (msg : String) (log : Log)
      → HasPassed ((if b then pure ("", true) else pure (msg, false)) log).0
      → b ≡ true
  passed_only_if true msg log h = refl
  passed_only_if false msg log h = elim h [ ]

  ready_of_answer :
      (r : Result (List LinstorSatellite)) (log : Log)
      → HasPassed (continue (λ s. report_unready node s) (r, log)).0
      → (satellites : List LinstorSatellite) × (r ≡ ok satellites)
        × All (λ s. is_unready node s ≡ false) satellites
  ready_of_answer (ok sats) log h =
      (sats, refl, none_selected (is_unready node) sats (passed_only_if _ _ log h))
  ready_of_answer (err e) log h = elim h [ ]

  pub wait_for_configured_satellites-AllReady :
      (log : Log) → HasPassed (wait_for_configured_satellites api node log).0 → AllReady log
  unfolding wait_for_configured_satellites
  wait_for_configured_satellites-AllReady log h =
      ready_of_answer (api.satellites log) (log ++ list_satellites ∷ []) h

module _ (api : Api) (connected : Bool) (strategy : EvacuationStrategy) (node : LinstorNode) where
  abbrev prepared : Log → Result (String × Bool) × Log
  prepared log = prepare_pvs_for_evacuation api node.name log

  prepare-IsKept : (log : Log) → IsKept log (prepared log).1
  prepare-IsKept log = (prepare_pvs_for_evacuation-Calls api node.name).at log

  wait-IsKept : (log : Log) → IsKept log (wait_for_configured_satellites api node.name log).1
  wait-IsKept log = (wait_for_configured_satellites-Calls api node.name).at log

  -- An evacuation leaves the node and its machine alone, or its volumes have been prepared and right
  -- after that every other satellite that is not being deleted was ready.
  pub evacuate_satellite-gate :
      (machine : Option Machine) (log : Log)
      → IsKept log (evacuate_satellite api connected strategy node machine log).1
        ⊎ HasPassed (prepared log).0 × AllReady api node.name (prepared log).1
  unfolding evacuate_satellite
  evacuate_satellite-gate machine log =
      elim (after_step-cases (once_prepared api connected strategy node machine) (prepared log)) [
        | inl (e, stopped) ↦ inl (rw e (prepare-IsKept log))
        | inr (passed, e) ↦
            elim (after_step-cases (once_ready api connected strategy node machine)
              (wait_for_configured_satellites api node.name (prepared log).1)) [
                | inl (e', stopped) ↦ inl (
                    rw (e, e')
                      (Grows-trans _ _ _ (prepare-IsKept log) (wait-IsKept (prepared log).1)))
                | inr (ready, e') ↦ inr (
                  passed,
                  wait_for_configured_satellites-AllReady api node.name (prepared log).1 ready,
                )
              ]
      ]
