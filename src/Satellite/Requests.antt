-- ===== src/Satellite/Requests.antt =====
-- When `reconcileLinstorSatelliteState` of internal/controller/linstorsatellite_controller.go has a node
-- evacuated or restored.
use piraeus_operator.Base.{
  String, Bool, true, false, [], ◌∷◌, Option, none, ◌≡◌, refl, ap, ◌&&◌, ◌||◌, contains, Bool-cases,
  inl, inr, arith, Option-cases,
}
use piraeus_operator.Conditions.{Conditions}
use piraeus_operator.Cluster.{
  Call, Machine, NodeInfo, LinstorNode, ApiError, lost_node, delete_node, restore_node, evacuate,
  update_satellite,
}
use piraeus_operator.Cluster.Effect.{Api, Log, Result, ok, err}
use piraeus_operator.Cluster.Calls.{Grows, Grows-trans, Calls, Calls-pure, calls_rules}
use piraeus_operator.Cluster.Linstor.{LinstorApi}
use piraeus_operator.ClusterApi.{
  prevent_machine_deletion, allow_machine_drain, allow_machine_termination, release_hook,
  machine_eventf, should_evacuate_node,
}
use piraeus_operator.LinstorHelper.Nodes.{NodeText}
use piraeus_operator.FieldPath.{ObjectMeta, KeyRules}
use piraeus_operator.Evacuation.Reach.{IsOn}
use piraeus_operator.Evacuation.Run.{run}
use piraeus_operator.Satellite.Deletion.{
  DeletionPolicy, no_policy, evacuate_policy, retain_policy, delete_policy,
  max_concurrent_evacuations,
}
use piraeus_operator.Satellite.Looks.{IsLook}
use piraeus_operator.Satellite.Release.{run-Grows}
use piraeus_operator.Satellite.State.{
  SatelliteState, LinstorNames, StateOutcome, or_report, after_drain, allow_both, adjust_machine,
  done_with, evacuate_on_request, is_evacuating, evacuate_or_restore,
}

-- No node is removed and no satellite changed; nodes are evacuated only on ClusterAPI's request, for a
-- satellite with the policy to evacuate, and an evacuation is taken back only without such a request.
abbrev pub IsSteady : DeletionPolicy → Option Machine → Call → Type 0
IsSteady dp machine (lost_node n) = ⊥
IsSteady dp machine (delete_node n) = ⊥
IsSteady dp machine (update_satellite n l) = ⊥
IsSteady dp machine (evacuate n) = (dp ≡ evacuate_policy) × (should_evacuate_node machine ≡ true)
IsSteady dp machine (restore_node n) =
    ¬ ((dp ≡ evacuate_policy) × (should_evacuate_node machine ≡ true))
IsSteady dp machine _ = Unit

module _ (dp : DeletionPolicy) (machine : Option Machine) where
  pub IsSteady-of_IsLook : (c : Call) → IsLook c → IsSteady dp machine c
  IsSteady-of_IsLook (lost_node n) h = elim h [ ]
  IsSteady-of_IsLook (delete_node n) h = elim h [ ]
  IsSteady-of_IsLook (evacuate n) h = elim h [ ]
  IsSteady-of_IsLook (restore_node n) h = elim h [ ]
  IsSteady-of_IsLook (update_satellite n l) h = elim h [ ]
  IsSteady-of_IsLook _ h = tt

pub or_report-Grows :
    {A : Type 0} (P : Call → Type 0) (report : ApiError → Conditions) (k : A → Log → StateOutcome)
    (log : Log) (p : Result A × Log)
    → Grows P log p.1
    → ((a : A) (l : Log) → Grows P l (k a l).1)
    → Grows P log (or_report report k p).1
or_report-Grows P report k log (ok a, mid) g h = Grows-trans log mid (k a mid).1 g (h a mid)
or_report-Grows P report k log (err e, mid) g h = g

module _ (api : Api) (lin : LinstorApi) (text : NodeText) (rules : KeyRules) (names : LinstorNames)
    (connected : Bool) (sat : SatelliteState) (node : ObjectMeta) (machine : Option Machine) where
  abbrev P : Call → Type 0
  P = IsSteady sat.object.deletion_policy machine

  release_hook-IsSteady :
      (hook reason message : String) (m : Option Machine)
      → Calls P (release_hook api hook reason message connected m)
  unfolding release_hook machine_eventf
  release_hook-IsSteady hook reason message m = elim (Bool-cases connected) [
    | inl e ↦ rw e (elim (Option-cases m) [
      | inl e' ↦ rw e' (Calls-pure none)
      | inr (m', e') ↦ rw e' (search (calls_rules, tt) depth 12)
    ])
    | inr e ↦ rw e (Calls-pure m)
  ]

  prevent-IsSteady : (m : Option Machine) → Calls P (prevent_machine_deletion api connected m)
  unfolding prevent_machine_deletion
  prevent-IsSteady m = elim (Bool-cases connected) [
    | inl e ↦ rw e (elim (Option-cases m) [
      | inl e' ↦ rw e' (Calls-pure tt)
      | inr (m', e') ↦ rw e' (search (calls_rules, tt) depth 12)
    ])
    | inr e ↦ rw e (Calls-pure tt)
  ]

  allow_both-Grows :
      (m : Option Machine) (log : Log)
      → Grows P log (allow_both api lin text rules names connected sat node m log).1
  unfolding allow_machine_drain allow_machine_termination
  allow_both-Grows m log =
      let drained = allow_machine_drain api connected m log in
      Grows-trans log drained.1 _ ((release_hook-IsSteady _ _ _ m).at log) (
        (release_hook-IsSteady _ _ _
            (after_drain api lin text rules names connected sat node m drained.0)).at
          drained.1)

  pub adjust_machine-Grows :
      (dp : DeletionPolicy) (m : Option Machine) (log : Log)
      → Grows P log (adjust_machine api lin text rules names connected sat node dp m log).1
  unfolding adjust_machine
  adjust_machine-Grows evacuate_policy m log = (prevent-IsSteady m).at log
  adjust_machine-Grows no_policy m log = allow_both-Grows m log
  adjust_machine-Grows retain_policy m log = allow_both-Grows m log
  adjust_machine-Grows delete_policy m log = allow_both-Grows m log

  evacuating :
      (dp : DeletionPolicy)
      → is_evacuating api lin text rules names connected sat node dp ≡ true
      → dp ≡ evacuate_policy
  evacuating evacuate_policy h = refl
  evacuating no_policy h = absurd (ground arith)
  evacuating retain_policy h = absurd (ground arith)
  evacuating delete_policy h = absurd (ground arith)

  done_with-Grows :
      (log : Log) (p : (Result Bool × Conditions) × Log)
      → Grows P log p.1
      → Grows P log (done_with api lin text rules names connected sat node p).1
  done_with-Grows log ((ok b, conds), end) h = h
  done_with-Grows log ((err e, conds), end) h = h

  module _
      (on : (sat.object.deletion_policy ≡ evacuate_policy)
        × (should_evacuate_node machine ≡ true)) where
    of_IsOn : (name : String) (c : Call) → IsOn name c → P c
    of_IsOn name (lost_node n) h = h
    of_IsOn name (delete_node n) h = h
    of_IsOn name (update_satellite n l) h = h
    of_IsOn name (evacuate n) h = on
    of_IsOn name (restore_node n) h = absurd h
    of_IsOn name _ h = tt

    evacuate_on_request-Grows :
        (lnode : LinstorNode) (conds : Conditions) (log : Log)
        → Grows P log
            (evacuate_on_request api lin text rules names connected sat node machine lnode conds
              log).1
    evacuate_on_request-Grows lnode conds log =
        or_report-Grows P _
          (λ limit at.
            done_with api lin text rules names connected sat node
              (run api connected sat.object.evacuation_strategy lnode machine conds limit at))
          log (max_concurrent_evacuations api lin connected sat.object log)
          ((let h : Calls P (max_concurrent_evacuations api lin connected sat.object) =
                search (calls_rules, tt) in
              h).at
            log)
          (λ limit at. done_with-Grows at _ (
            run-Grows api connected sat.object.evacuation_strategy lnode P (of_IsOn lnode.name)
              machine conds limit at))

  pub evacuate_or_restore-Grows :
      (lnode : NodeInfo) (conds : Conditions) (log : Log)
      → Grows P log
          (evacuate_or_restore api lin text rules names connected sat node machine lnode conds
            log).1
  unfolding evacuate_or_restore
  evacuate_or_restore-Grows lnode conds log =
      let asked = should_evacuate_node machine in
      let wanted =
        is_evacuating api lin text rules names connected sat node sat.object.deletion_policy in
      let leaving =
        contains lnode.flags api.names.flag_evacuate || contains lnode.flags names.flag_evicted in
      elim (Bool-cases (asked && wanted)) [
        | inl e ↦
            let a : asked ≡ true = ground arith in
            let w : wanted ≡ true = ground arith in
            rw (evacuate_or_restore, e)
              (evacuate_on_request-Grows (evacuating sat.object.deletion_policy w, a)
                (record { name = lnode.name; flags = lnode.flags }) conds log)
        | inr e ↦ elim (Bool-cases leaving) [
          | inl f ↦
              rw (evacuate_or_restore, e, f) (restore_node lnode.name ∷ [], refl, (not_asked e, tt))
          | inr f ↦ rw (evacuate_or_restore, e, f) ((Calls-pure tt).at log)
        ]
      ]
    where
      not_asked :
          (should_evacuate_node machine
              && is_evacuating api lin text rules names connected sat node
                  sat.object.deletion_policy)
            ≡ false
          → ¬ (
              (sat.object.deletion_policy ≡ evacuate_policy)
              × (should_evacuate_node machine ≡ true))
      not_asked e (p, a) =
          let w : is_evacuating api lin text rules names connected sat node
                sat.object.deletion_policy
              ≡ true =
            ap (is_evacuating api lin text rules names connected sat node) p in
          absurd (ground (arith, e, w, a))
