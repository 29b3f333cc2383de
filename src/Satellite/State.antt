-- ===== src/Satellite/State.antt =====
-- `reconcileLinstorSatelliteState` of internal/controller/linstorsatellite_controller.go, for a satellite
-- that is not being deleted. The figures that it adds to the status are left out; the calls that fetch
-- them are made.
use piraeus_operator.Base.{
  ℕ, String, Bool, true, false, List, [], ◌∷◌, ◌++◌, Option, none, some, ◌==◌, ◌&&◌, ◌||◌,
  if◌then◌else◌, any, contains, is_empty, Dict, put, remove,
}
use piraeus_operator.Conditions.{
  Conditions, available, configured, add_error, add_unknown, add_success,
}
use piraeus_operator.Cluster.{
  Machine, NodeInfo, LinstorNode, NetInterface, Pod, ApiError, plain_error, join_errors, list_pods,
  get_version, list_pools, view_resources, view_snapshots, restore_node,
}
use piraeus_operator.Cluster.Effect.{Api, Log, M, Result, ok, err, ask}
use piraeus_operator.Cluster.Linstor.{LinstorApi}
use piraeus_operator.ClusterApi.{
  get_machine_for_node, prevent_machine_deletion, allow_machine_drain, allow_machine_termination,
  should_evacuate_node, pre_drain_hook,
}
use piraeus_operator.LinstorHelper.Client.{LinstorClient, new_client_for_cluster}
use piraeus_operator.LinstorHelper.Nodes.{NodeText, create_or_update_node}
use piraeus_operator.FieldPath.{ObjectMeta, KeyRules}
use piraeus_operator.FieldPath.Properties.{LinstorNodeProperty, resolve_node_properties}
use piraeus_operator.Evacuation.Run.{run}
use piraeus_operator.Satellite.Deletion.{
  DeletionPolicy, no_policy, evacuate_policy, retain_policy, delete_policy, SatelliteObject,
  max_concurrent_evacuations,
}
use piraeus_operator.Satellite.Pools.{PoolSpec, reconcile_storage_pools}

-- A satellite with what its state is reconciled from
pub record SatelliteState : Type 0 where
  pub object : SatelliteObject
  pub uid : String
  pub properties : List LinstorNodeProperty
  pub storage_pools : List PoolSpec
  pub ip_families : List String
  pub has_internal_tls : Bool

-- `net.ParseIP` with `To4` and `To16`
pub data Address : Type 0 where
  ipv4 ipv6 : String → Address
  no_address : Address

-- What golinstor and package net fix.
pub record LinstorNames : Type 0 where
  pub parse_ip : String → Address
  pub pool_key : String
  pub key_autoplace_allow_target : String
  pub type_plain : String
  pub type_ssl : String
  pub port_plain : ℕ
  pub port_ssl : ℕ
  pub flag_evicted : String

abbrev pub StateOutcome : Type 0
StateOutcome = (Result (Unit {0}) × Conditions) × Log

-- a step whose error is reported and ends the reconciliation
abbrev pub or_report :
    {A : Type 0}
    → (ApiError → Conditions)
    → (A → Log → StateOutcome)
    → Result A × Log
    → StateOutcome
or_report report k (ok a, log) = k a log
or_report report k (err e, log) = ((err e, report e), log)

abbrev pub not_available : Conditions → String → ApiError → Conditions
not_available conds why e = add_unknown (add_error conds available e.text) configured why

abbrev pub is_ready : Pod → Bool
is_ready pod = any (λ c. c.0 == "Ready" && c.1 == "True") pod.conditions

-- exactly one pod, with an address
abbrev pub ready_pod : List Pod → Result Pod
ready_pod [] = err (plain_error "expected one Pod")
ready_pod (pod ∷ []) =
    if is_empty pod.pod_ips
    then err (plain_error "no assigned IP address for Pod")
    else if is_ready pod
    then ok pod
    else err (plain_error "Pod not ready")
ready_pod (pod ∷ q ∷ rest) = err (plain_error "expected one Pod")

abbrev pub ready_pod_of : Result (List Pod) → Result Pod
ready_pod_of (ok pods) = ready_pod pods
ready_pod_of (err e) = err e

abbrev pub errors_of : {A : Type 0} → Result A → List ApiError
errors_of (ok a) = []
errors_of (err e) = e ∷ []

abbrev pub joined : List ApiError → Result (Unit {0})
joined [] = ok tt
joined (e ∷ errs) = err (join_errors (e ∷ errs))

module _ (api : Api) (lin : LinstorApi) (text : NodeText) (rules : KeyRules) (names : LinstorNames)
    (connected : Bool) (sat : SatelliteState) (node : ObjectMeta) where
  -- the machine as the first of two calls leaves it, whether that fails or not
  abbrev pub after_drain : Option Machine → Result (Option Machine) → Option Machine
  after_drain machine (ok m) = m
  after_drain none (err e) = none
  after_drain (some m) (err e) =
      some (record m { annotations = remove m.annotations (pre_drain_hook api.names) })

  -- both hooks are released, and the errors joined
  abbrev pub allow_both : Option Machine → M (Unit {0})
  allow_both machine log =
      let (drained, mid) = allow_machine_drain api connected machine log in
      let (ended, last) =
        allow_machine_termination api connected (after_drain machine drained) mid in
      (joined (errors_of drained ++ errors_of ended), last)

  unfoldable pub adjust_machine : DeletionPolicy → Option Machine → M (Unit {0})
  adjust_machine evacuate_policy machine = prevent_machine_deletion api connected machine
  adjust_machine no_policy machine = allow_both machine
  adjust_machine retain_policy machine = allow_both machine
  adjust_machine delete_policy machine = allow_both machine

  unfoldable pub get_ready_pod : M Pod
  get_ready_pod = ask (list_pods sat.uid) (λ log. ready_pod_of (lin.pods sat.uid log))

  abbrev pub check_version : M (Unit {0})
  check_version log =
      (elim (lin.version_error log) [ none ↦ ok tt | some e ↦ err e ], log ++ get_version ∷ [])

  abbrev pub interface_of : String → String → NetInterface
  interface_of name address = record {
    name = name;
    address = address;
    satellite_port = if sat.has_internal_tls then names.port_ssl else names.port_plain;
    satellite_encryption_type = if sat.has_internal_tls then names.type_ssl else names.type_plain;
  }

  -- an interface of a family that is asked for; any family is if none is named
  abbrev pub add_interface :
      String → String → String → Option (List NetInterface) → Option (List NetInterface)
  add_interface family name address none = none
  add_interface family name address (some rest) =
      if is_empty sat.ip_families || contains sat.ip_families family
      then some (interface_of name address ∷ rest)
      else some rest

  -- `none` is an address of no known format
  unfoldable pub net_interfaces : List String → Option (List NetInterface)
  net_interfaces [] = some []
  net_interfaces (ip ∷ ips) = elim (names.parse_ip ip) [
    | ipv4 a ↦ add_interface "IPv4" "default-ipv4" a (net_interfaces ips)
    | ipv6 a ↦ add_interface "IPv6" "default-ipv6" a (net_interfaces ips)
    | no_address ↦ none
  ]

  -- the node's properties: no new resources are placed on a node that is to be evacuated
  abbrev pub node_props : Option Machine → Dict String → Dict String
  node_props machine props =
      if should_evacuate_node machine
      then put props names.key_autoplace_allow_target "false"
      else props

  abbrev pub report_pools : Conditions → Result (Unit {0}) → Conditions
  report_pools conds (ok _) = add_success conds configured "Pools configured"
  report_pools conds (err e) = add_error conds configured e.text

  -- the calls for the additional status information
  abbrev pub read_figures : Log → Log
  read_figures log =
      log ++ list_pools node.name ∷ view_resources node.name ∷ view_snapshots node.name ∷ []

  abbrev pub done_with : (Result Bool × Conditions) × Log → StateOutcome
  done_with ((ok b, conds), log) = ((ok tt, conds), log)
  done_with ((err e, conds), log) = ((err e, conds), log)

  abbrev pub evacuate_on_request : Option Machine → LinstorNode → Conditions → Log → StateOutcome
  evacuate_on_request machine lnode conds log =
      or_report (λ e. conds)
        (λ limit at.
          done_with (run api connected sat.object.evacuation_strategy lnode machine conds limit at))
        (max_concurrent_evacuations api lin connected sat.object log)

  abbrev pub report_restore : Conditions → Option ApiError → Conditions
  report_restore conds none = conds
  report_restore conds (some e) = add_error conds configured e.text

  abbrev pub restore : NodeInfo → Conditions → Log → StateOutcome
  restore lnode conds log = (
    (ok tt, report_restore conds (api.outcome (restore_node lnode.name) log)),
    log ++ restore_node lnode.name ∷ [],
  )

  abbrev pub is_evacuating : DeletionPolicy → Bool
  is_evacuating evacuate_policy = true
  is_evacuating no_policy = false
  is_evacuating retain_policy = false
  is_evacuating delete_policy = false

  -- the request of ClusterAPI to evacuate the node, or else the end of an evacuation
  unfoldable pub evacuate_or_restore : Option Machine → NodeInfo → Conditions → Log → StateOutcome
  evacuate_or_restore machine lnode conds log =
      if should_evacuate_node machine && is_evacuating sat.object.deletion_policy
      then evacuate_on_request machine (record { name = lnode.name; flags = lnode.flags }) conds log
      else if contains lnode.flags api.names.flag_evacuate
          || contains lnode.flags names.flag_evicted
      then restore lnode conds log
      else ((ok tt, conds), log)

  abbrev pub when_online : Option Machine → NodeInfo → Conditions → Log → StateOutcome
  when_online machine lnode conds log =
      let (pools, after) =
        reconcile_storage_pools api lin text.json names.pool_key sat.object.name rules node
          sat.storage_pools log in
      evacuate_or_restore machine lnode
        (report_pools (add_success conds available lnode.connection_status) pools)
        (read_figures after)

  abbrev pub when_registered : Option Machine → Conditions → NodeInfo → Log → StateOutcome
  when_registered machine conds lnode log =
      if lnode.connection_status == "ONLINE"
      then when_online machine lnode conds log
      else ((ok tt, add_error conds available lnode.connection_status), log)

  abbrev pub register :
      Option Machine
      → Conditions
      → Pod
      → Dict String
      → Option (List NetInterface)
      → Log
      → StateOutcome
  register machine conds pod props none log = (
    (
      ok tt,
      not_available conds "Node registration not up to date"
          (plain_error "unrecognized address format"),
    ),
    log,
  )
  register machine conds pod props (some nics) log =
      or_report (not_available conds "Node registration not up to date")
        (when_registered machine conds)
        (create_or_update_node text api lin
          (record { name = pod.node_name; props = node_props machine props; net_interfaces = nics })
          log)

  abbrev pub when_reachable : Option Machine → Conditions → Pod → Log → StateOutcome
  when_reachable machine conds pod log =
      or_report (λ e. add_error conds configured e.text)
        (λ props. register machine conds pod props (net_interfaces pod.pod_ips))
        (resolve_node_properties rules node sat.properties, log)

  abbrev pub when_ready : Option Machine → Conditions → Pod → Log → StateOutcome
  when_ready machine conds pod log =
      or_report (not_available conds "Controller unreachable")
        (λ _. when_reachable machine conds pod) (check_version log)

  -- a nil client comes with a nil error, which the condition shows
  abbrev pub with_client : Option Machine → Conditions → Option LinstorClient → Log → StateOutcome
  with_client machine conds none log =
      ((ok tt, not_available conds "Controller unreachable" (plain_error "<nil>")), log)
  with_client machine conds (some client) log =
      or_report (not_available conds "Pod not ready") (when_ready machine conds) (get_ready_pod log)

  abbrev pub with_machine : Conditions → Option Machine → Log → StateOutcome
  with_machine conds machine log =
      or_report (not_available conds "failed to update ClusterAPI Machine")
        (λ _ at.
          or_report (not_available conds "Controller unreachable") (with_client machine conds)
            (new_client_for_cluster lin sat.object.cluster_ref at))
        (adjust_machine sat.object.deletion_policy machine log)

  unfoldable pub reconcile_linstor_satellite_state : Conditions → Log → StateOutcome
  reconcile_linstor_satellite_state conds log =
      or_report (not_available conds "failed to get ClusterAPI Machine") (with_machine conds)
        (get_machine_for_node api connected node.annotations log)
