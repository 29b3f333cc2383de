-- ===== src/Satellite/Policy.antt =====
-- What the policy lets `deleteSatellite` of internal/controller/linstorsatellite_controller.go do.
use piraeus_operator.Base.{
  String, Bool, true, false, Option, none, some, Dict, contains, select, ◌≡◌, refl, ◌==◌, not,
  Bool-cases, Option-cases, inl, inr,
}
use piraeus_operator.Conditions.{Conditions}
use piraeus_operator.Cluster.{
  Call, lost_node, delete_node, update_satellite, evacuate, get_node, LinstorNode, Machine,
}
use piraeus_operator.Cluster.Effect.{Api, M, Log, ok, err, ask}
use piraeus_operator.Cluster.Calls.{Grows, Grows-trans, Calls, Calls-imp, calls_rules, Calls-pure}
use piraeus_operator.Cluster.Linstor.{LinstorApi}
use piraeus_operator.LinstorHelper.Client.{LinstorClient, new_client_for_cluster}
use piraeus_operator.ClusterApi.{
  get_machine_for_node, release_hook, machine_eventf, allow_machine_drain,
  allow_machine_termination,
}
use piraeus_operator.Evacuation.Run.{run}
use piraeus_operator.Evacuation.Reach.{IsOn}
use piraeus_operator.Satellite.Deletion.{
  DeletionPolicy, no_policy, evacuate_policy, retain_policy, delete_policy, SatelliteObject,
  Outcome, satellite_finalizer, delete_satellite, by_policy, for_client, for_machine,
  evacuate_found, once_evacuated, unless_failed, max_concurrent_evacuations, if_found, release,
  delete_and_release, lose_and_release, release_without_cluster,
}
use piraeus_operator.Satellite.Release.{run-Grows}
use piraeus_operator.Satellite.Looks.{
  IsLook, get_machine_for_node-Calls, new_client_for_cluster-Calls, unless_failed_lem,
}

-- What a policy allows: LINSTOR loses the satellite's own node for `Delete` only, and moves resources
-- off a node or deletes the satellite's own for `Evacuate` only. Of the satellites its own alone is
-- changed, and nothing but the operator's finalizer is taken off it.
abbrev pub IsAllowed : SatelliteObject → Call → Type 0
IsAllowed sat (lost_node n) = (sat.deletion_policy ≡ delete_policy) × (n ≡ sat.name)
IsAllowed sat (delete_node n) = (sat.deletion_policy ≡ evacuate_policy) × (n ≡ sat.name)
IsAllowed sat (evacuate n) = sat.deletion_policy ≡ evacuate_policy
IsAllowed sat (update_satellite n l) =
    (n ≡ sat.name) × (l ≡ select (λ f. not (f == satellite_finalizer)) sat.finalizers)
IsAllowed sat _ = Unit

module _ (sat : SatelliteObject) where
  IsAllowed-of_IsLook : (c : Call) → IsLook c → IsAllowed sat c
  IsAllowed-of_IsLook (lost_node n) h = elim h [ ]
  IsAllowed-of_IsLook (delete_node n) h = elim h [ ]
  IsAllowed-of_IsLook (evacuate n) h = elim h [ ]
  IsAllowed-of_IsLook (update_satellite n l) h = elim h [ ]
  IsAllowed-of_IsLook _ h = tt

  IsAllowed-of_IsOn :
      (node : String)
      → sat.deletion_policy ≡ evacuate_policy
      → (c : Call) → IsOn node c
      → IsAllowed sat c
  IsAllowed-of_IsOn node p (lost_node n) h = elim h [ ]
  IsAllowed-of_IsOn node p (delete_node n) h = elim h [ ]
  IsAllowed-of_IsOn node p (evacuate n) h = p
  IsAllowed-of_IsOn node p (update_satellite n l) h = elim h [ ]
  IsAllowed-of_IsOn node p _ h = tt

module _ (api : Api) (lin : LinstorApi) (connected : Bool) (sat : SatelliteObject) where
  release-Calls : Calls (IsAllowed sat) (release api lin connected sat)
  unfolding release
  release-Calls =
      let own : IsAllowed sat (
          update_satellite sat.name (select (λ f. not (f == satellite_finalizer)) sat.finalizers)) =
        (refl, refl) in
      search (calls_rules, own) depth 12

  lose_and_release-Calls :
      sat.deletion_policy ≡ delete_policy
      → Calls (IsAllowed sat) (lose_and_release api lin connected sat)
  unfolding lose_and_release
  lose_and_release-Calls p =
      let own : IsAllowed sat (lost_node sat.name) = (p, refl) in
      search (calls_rules, release-Calls, own) depth 12

  delete_and_release-Calls :
      sat.deletion_policy ≡ evacuate_policy
      → Calls (IsAllowed sat) (delete_and_release api lin connected sat)
  unfolding delete_and_release
  delete_and_release-Calls p =
      let own : IsAllowed sat (delete_node sat.name) = (p, refl) in
      search (calls_rules, release-Calls, own) depth 12

  release_hook-IsAllowed :
      (hook reason message : String) (machine : Option Machine)
      → Calls (IsAllowed sat) (release_hook api hook reason message connected machine)
  unfolding release_hook machine_eventf
  release_hook-IsAllowed hook reason message machine = elim (Bool-cases connected) [
    | inl e ↦ rw e (elim (Option-cases machine) [
      | inl e' ↦ rw e' (Calls-pure none)
      | inr (m, e') ↦ rw e' (search (calls_rules, tt) depth 12)
    ])
    | inr e ↦ rw e (Calls-pure machine)
  ]

  release_without_cluster-Calls :
      (machine : Option Machine)
      → Calls (IsAllowed sat) (release_without_cluster api lin connected sat machine)
  unfolding release_without_cluster allow_machine_drain allow_machine_termination
  release_without_cluster-Calls machine =
      search (calls_rules, release-Calls, release_hook-IsAllowed) depth 12

module _ (api : Api) (lin : LinstorApi) (connected : Bool) (sat : SatelliteObject) where
  abbrev Goal : Log → Outcome → Type 0
  Goal start o = Grows (IsAllowed sat) start o.1

  abbrev extend :
      {A : Type 0} (m : M A) (start log : Log)
      → Grows (IsAllowed sat) start log
      → Calls (IsAllowed sat) m
      → Grows (IsAllowed sat) start (m log).1
  extend m start log g h = Grows-trans start log (m log).1 g (h.at log)

  -- the calls of a continuation that are allowed wherever it starts
  after_look :
      {A : Type 0} (conds : Conditions) (m : M A) (k : A → Log → Outcome) (start : Log)
      → Calls (IsAllowed sat) m
      → ((a : A) (log : Log) → Goal log (k a log))
      → Goal start (unless_failed conds k (m start))
  after_look conds m k start h go =
      unless_failed_lem (Goal start) conds k (m start) (λ r. h.at start)
        (λ a _. Grows-trans start (m start).1 _ (h.at start) (go a (m start).1))

  once_evacuated-Grows :
      (start : Log) (o : Outcome)
      → sat.deletion_policy ≡ evacuate_policy
      → Goal start o
      → Goal start (once_evacuated api lin connected sat o)
  once_evacuated-Grows start ((ok true, conds), log) p g =
      extend (delete_and_release api lin connected sat) start log g
        (delete_and_release-Calls api lin connected sat p)
  once_evacuated-Grows start ((ok false, conds), log) p g = g
  once_evacuated-Grows start ((err e, conds), log) p g = g

  evacuate_found-Grows :
      (machine : Option Machine) (conds : Conditions) (found : Option LinstorNode) (log : Log)
      → sat.deletion_policy ≡ evacuate_policy
      → Goal log (evacuate_found api lin connected sat machine conds found log)
  evacuate_found-Grows machine conds none log p = (release-Calls api lin connected sat).at log
  evacuate_found-Grows machine conds (some node) log p =
      after_look conds (max_concurrent_evacuations api lin connected sat)
        (λ limit at.
          once_evacuated api lin connected sat
            (run api connected sat.evacuation_strategy node machine conds limit at))
        log (search (calls_rules, tt))
        (λ limit at. once_evacuated-Grows at _ p (
          run-Grows api connected sat.evacuation_strategy node (IsAllowed sat)
            (IsAllowed-of_IsOn sat node.name p) machine conds limit at))

  by_policy-Grows :
      (policy : DeletionPolicy) (machine : Option Machine) (conds : Conditions) (log : Log)
      → sat.deletion_policy ≡ policy
      → Goal log (by_policy api lin connected sat policy machine conds log)
  unfolding by_policy
  by_policy-Grows evacuate_policy machine conds log p =
      after_look conds (ask (get_node sat.name) (λ at. if_found (lin.node sat.name at)))
        (evacuate_found api lin connected sat machine conds) log (search (calls_rules, tt))
        (λ found at. evacuate_found-Grows machine conds found at p)
  by_policy-Grows delete_policy machine conds log p =
      (lose_and_release-Calls api lin connected sat p).at log
  by_policy-Grows no_policy machine conds log p = (release-Calls api lin connected sat).at log
  by_policy-Grows retain_policy machine conds log p = (release-Calls api lin connected sat).at log

  for_client-Grows :
      (machine : Option Machine) (conds : Conditions) (client : Option LinstorClient) (log : Log)
      → Goal log (for_client api lin connected sat machine conds client log)
  for_client-Grows machine conds none log =
      (release_without_cluster-Calls api lin connected sat machine).at log
  for_client-Grows machine conds (some client) log =
      by_policy-Grows sat.deletion_policy machine conds log refl

  for_machine-Grows :
      (conds : Conditions) (machine : Option Machine) (log : Log)
      → Goal log (for_machine api lin connected sat conds machine log)
  for_machine-Grows conds machine log =
      after_look conds (new_client_for_cluster lin sat.cluster_ref)
        (for_client api lin connected sat machine conds) log
        (Calls-imp _ (IsAllowed-of_IsLook sat) (new_client_for_cluster-Calls lin sat.cluster_ref))
        (for_client-Grows machine conds)

  -- Whatever happens, the deletion of a satellite tells LINSTOR to lose the satellite's own node, and
  -- no other, only where the policy is `Delete`; it evacuates a node, or deletes the satellite's own
  -- and no other, only where the policy is `Evacuate`; and of the satellites it writes its own alone,
  -- from which it takes the operator's finalizer and no other.
  pub delete_satellite-IsAllowed :
      (annotations : Dict String) (conds : Conditions) (log : Log)
      → Grows (IsAllowed sat) log (delete_satellite api lin connected sat annotations conds log).1
  unfolding delete_satellite
  delete_satellite-IsAllowed annotations conds log =
      elim (Bool-cases (not (contains sat.finalizers satellite_finalizer))) [
        | inl e ↦ rw e ((Calls-pure tt).at log)
        | inr e ↦ rw e (
            after_look conds (get_machine_for_node api connected annotations)
              (for_machine api lin connected sat conds) log
              (Calls-imp _ (IsAllowed-of_IsLook sat)
                (get_machine_for_node-Calls api connected annotations))
              (for_machine-Grows conds))
      ]
