-- ===== src/Satellite/Steady.antt =====
-- What `reconcileLinstorSatelliteState` of internal/controller/linstorsatellite_controller.go does to the
-- nodes in LINSTOR.
use piraeus_operator.Base.{
  String, Bool, List, [], ◌∷◌, Option, none, some, ◌≡◌, refl, sym, subst, ◌==◌, Dict, Bool-cases,
  inl, inr,
}
use piraeus_operator.Conditions.{Conditions}
use piraeus_operator.Cluster.{
  Call, Machine, NodeInfo, NetInterface, Pod, PoolInfo, lost_node, delete_node, restore_node,
  evacuate, update_satellite, list_pools, view_resources, view_snapshots, get_version,
}
use piraeus_operator.Cluster.Effect.{Api, Log, Result, ok, err}
use piraeus_operator.Cluster.Calls.{
  Grows, Grows-trans, Grows-imp, Calls, Calls-imp, Calls-pure, calls_rules,
}
use piraeus_operator.Cluster.Linstor.{LinstorApi}
use piraeus_operator.ClusterApi.{get_machine_for_node}
use piraeus_operator.LinstorHelper.Client.{LinstorClient, new_client_for_cluster}
use piraeus_operator.LinstorHelper.Nodes.{NodeText, WantedNode, create_or_update_node}
use piraeus_operator.FieldPath.{ObjectMeta, KeyRules}
use piraeus_operator.Satellite.Looks.{new_client_for_cluster-Calls, get_machine_for_node-Calls}
use piraeus_operator.Satellite.Pools.{reconcile_storage_pools}
use piraeus_operator.LinstorHelper.Stale.{IsTame, create_or_update_node-IsTame}
use piraeus_operator.Satellite.Surplus.{IsSurplusOnly, reconcile_storage_pools-IsSurplusOnly}
use piraeus_operator.Cluster.Answers.{Result-cases, ok-injective}
use piraeus_operator.FieldPath.Properties.{resolve_node_properties}
use piraeus_operator.Satellite.State.{
  not_available, SatelliteState, LinstorNames, or_report, adjust_machine, get_ready_pod,
  check_version, net_interfaces, node_props, read_figures, when_online, when_registered, register,
  when_reachable, when_ready, with_client, with_machine, reconcile_linstor_satellite_state,
  not_available,
}
use piraeus_operator.Satellite.Requests.{
  IsSteady, IsSteady-of_IsLook, or_report-Grows, adjust_machine-Grows, evacuate_or_restore-Grows,
}

module _ (api : Api) (lin : LinstorApi) (text : NodeText) (rules : KeyRules) (names : LinstorNames)
    (connected : Bool) (sat : SatelliteState) (node : ObjectMeta) (machine : Option Machine) where
  abbrev P : Call → Type 0
  P = IsSteady sat.object.deletion_policy machine

  of_IsTame : (c : Call) → IsTame text api lin c → P c
  of_IsTame (lost_node n) h = h
  of_IsTame (delete_node n) h = h
  of_IsTame (restore_node n) h = absurd h
  of_IsTame (evacuate n) h = absurd h
  of_IsTame (update_satellite n l) h = h
  of_IsTame _ h = tt

  of_IsSurplusOnly :
      (current : List PoolInfo) (c : Call)
      → IsSurplusOnly api lin text.json names.pool_key sat.object.name sat.storage_pools current c
      → P c
  of_IsSurplusOnly current (lost_node n) h = h
  of_IsSurplusOnly current (delete_node n) h = h
  of_IsSurplusOnly current (restore_node n) h = absurd h
  of_IsSurplusOnly current (evacuate n) h = absurd h
  of_IsSurplusOnly current (update_satellite n l) h = h
  of_IsSurplusOnly current _ h = tt

  pools-Grows :
      (log : Log)
      → Grows P log
          (reconcile_storage_pools api lin text.json names.pool_key sat.object.name rules node
            sat.storage_pools log).1
  unfolding reconcile_storage_pools
  pools-Grows log = elim (Result-cases (lin.pools sat.object.name log)) [
    | inl (current, e) ↦ Grows-imp log _ (of_IsSurplusOnly current) (
        reconcile_storage_pools-IsSurplusOnly api lin text.json names.pool_key sat.object.name rules
          node sat.storage_pools log current e)
    | inr (x, e) ↦ rw (reconcile_storage_pools, e) (list_pools sat.object.name ∷ [], refl, (tt, tt))
  ]

  when_online-Grows :
      (lnode : NodeInfo) (conds : Conditions) (log : Log)
      → Grows P log
          (when_online api lin text rules names connected sat node machine lnode conds log).1
  when_online-Grows lnode conds log =
      let pools =
        reconcile_storage_pools api lin text.json names.pool_key sat.object.name rules node
          sat.storage_pools log in
      let figures = read_figures api lin text rules names connected sat node pools.1 in
      Grows-trans log pools.1 _ (pools-Grows log) (
        Grows-trans pools.1 figures _
          (
            list_pools node.name ∷ view_resources node.name ∷ view_snapshots node.name ∷ [],
            refl,
            (tt, (tt, (tt, tt))),
          )
          (evacuate_or_restore-Grows api lin text rules names connected sat node machine lnode _
            figures))

  when_registered-Grows :
      (conds : Conditions) (lnode : NodeInfo) (log : Log)
      → Grows P log
          (when_registered api lin text rules names connected sat node machine conds lnode log).1
  when_registered-Grows conds lnode log = elim (Bool-cases (lnode.connection_status == "ONLINE")) [
    | inl e ↦ rw e (when_online-Grows lnode conds log)
    | inr e ↦ rw e ((Calls-pure tt).at log)
  ]

  register-Grows :
      (conds : Conditions) (pod : Pod) (props : Dict String) (nics : Option (List NetInterface))
      (log : Log)
      → Grows P log
          (register api lin text rules names connected sat node machine conds pod props nics log).1
  register-Grows conds pod props none log = (Calls-pure tt).at log
  register-Grows conds pod props (some nics) log =
      let wanted : WantedNode = record {
        name = pod.node_name;
        props = node_props api lin text rules names connected sat node machine props;
        net_interfaces = nics;
      } in
      or_report-Grows P _
        (when_registered api lin text rules names connected sat node machine conds) log
        (create_or_update_node text api lin wanted log)
        ((Calls-imp _ of_IsTame (create_or_update_node-IsTame text api lin wanted)).at log)
        (when_registered-Grows conds)

  when_ready-Grows :
      (conds : Conditions) (pod : Pod) (log : Log)
      → Grows P log (when_ready api lin text rules names connected sat node machine conds pod log).1
  when_ready-Grows conds pod log =
      or_report-Grows P _
        (λ _. when_reachable api lin text rules names connected sat node machine conds pod) log
        (check_version api lin text rules names connected sat node log)
        (get_version ∷ [], refl, (tt, tt))
        (λ _ l.
          or_report-Grows P _
            (λ props.
              register api lin text rules names connected sat node machine conds pod props
                (net_interfaces api lin text rules names connected sat node pod.pod_ips))
            l (resolve_node_properties rules node sat.properties, l) ((Calls-pure tt).at l)
            (λ props. register-Grows conds pod props _))

  ready_pod-Calls : Calls P (get_ready_pod api lin text rules names connected sat node)
  unfolding get_ready_pod
  ready_pod-Calls = search (calls_rules, tt)

  with_client-Grows :
      (conds : Conditions) (client : Option LinstorClient) (log : Log)
      → Grows P log
          (with_client api lin text rules names connected sat node machine conds client log).1
  with_client-Grows conds none log = (Calls-pure tt).at log
  with_client-Grows conds (some client) log =
      or_report-Grows P _ (when_ready api lin text rules names connected sat node machine conds) log
        (get_ready_pod api lin text rules names connected sat node log) (ready_pod-Calls.at log)
        (when_ready-Grows conds)

  with_machine-Grows :
      (conds : Conditions) (log : Log)
      → Grows P log (with_machine api lin text rules names connected sat node conds machine log).1
  with_machine-Grows conds log =
      or_report-Grows P _
        (λ _ at.
          or_report _ (with_client api lin text rules names connected sat node machine conds)
            (new_client_for_cluster lin sat.object.cluster_ref at))
        log
        (adjust_machine api lin text rules names connected sat node sat.object.deletion_policy
          machine log)
        (adjust_machine-Grows api lin text rules names connected sat node machine
          sat.object.deletion_policy machine log)
        (λ _ at.
          or_report-Grows P _
            (with_client api lin text rules names connected sat node machine conds) at
            (new_client_for_cluster lin sat.object.cluster_ref at)
            ((Calls-imp _ (IsSteady-of_IsLook sat.object.deletion_policy machine)
                (new_client_for_cluster-Calls lin sat.object.cluster_ref)).at
              at)
            (with_client-Grows conds))

  -- While a satellite is not being deleted, the reconciliation of its state removes no node from LINSTOR
  -- and changes no satellite. It evacuates a node only if the satellite's policy is to evacuate and
  -- ClusterAPI is removing the machine that it was given for the node, and restores one only if that is
  -- not so.
  pub reconcile_linstor_satellite_state-IsSteady :
      (conds : Conditions) (log : Log)
      → (get_machine_for_node api connected node.annotations log).0 ≡ ok machine
      → Grows
          (IsSteady sat.object.deletion_policy machine)
          log
          (reconcile_linstor_satellite_state api lin text rules names connected sat node conds
            log).1
  unfolding reconcile_linstor_satellite_state
  reconcile_linstor_satellite_state-IsSteady conds log e =
      let asked = get_machine_for_node api connected node.annotations log in
      let look =
        (Calls-imp _ (IsSteady-of_IsLook sat.object.deletion_policy machine)
            (get_machine_for_node-Calls api connected node.annotations)).at
          log in
      go asked e look
    where
      go :
          (p : Result (Option Machine) × Log)
          → p.0 ≡ ok machine
          → Grows P log p.1
          → Grows P log
              (or_report
                (not_available conds "failed to get ClusterAPI Machine")
                (with_machine api lin text rules names connected sat node conds)
                p).1
      go (ok m, mid) e g = Grows-trans log mid _ g (
          subst
            (λ x.
              Grows P mid (with_machine api lin text rules names connected sat node conds x mid).1)
            (sym (ok-injective m machine e)) (with_machine-Grows conds mid))
      go (err x, mid) e g = g
