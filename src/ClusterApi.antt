-- ===== src/ClusterApi.antt =====
-- pkg/clusterapi/machine.go: the hooks on a ClusterAPI Machine that hold back the drain and the
-- termination of its node. `connected` says that there is a client (`cl != nil`).
use piraeus_operator.Base.{
  String, Bool, true, false, Option, none, some, Dict, get, put, remove, or_else, is_some, ◌⧺◌,
  ◌||◌, not, ◌==◌, if◌then◌else◌,
}
use piraeus_operator.Cluster.{Machine, machine, update_machine, get_machine, event}
use piraeus_operator.Cluster.Effect.{
  Api, Names, M, ok, err, pure, attempt, record_event, real_error, fail_if, ask, ◌>>=◌, ◌>>◌,
}

abbrev pub pre_drain_hook : Names → String
pre_drain_hook names = names.pre_drain_prefix ⧺ "/linstor-prepare-for-drain"

abbrev pub pre_terminate_hook : Names → String
pre_terminate_hook names = names.pre_terminate_prefix ⧺ "/linstor-wait-for-complete-evacuation"

abbrev pub has : Dict String → String → Bool
has annotations k = is_some (get annotations k)

abbrev pub should_evacuate_node : Option Machine → Bool
should_evacuate_node none = false
should_evacuate_node (some m) = m.is_deleted

module _ (api : Api) where
  -- `none` is Go's `nil`: there is no machine to speak of.
  unfoldable pub get_machine_for_node : Bool → Dict String → M (Option Machine)
  get_machine_for_node connected annotations log =
      let cluster_ns = or_else "" (get annotations api.names.cluster_namespace_annotation) in
      let name = or_else "" (get annotations api.names.machine_annotation) in
      if not connected || cluster_ns == "" || name == ""
      then (ok none, log)
      else let (found, after) =
          ask (get_machine cluster_ns name) (api.machine cluster_ns name) log in
        (
          elim found [
            | ok m ↦ ok (some m)
            | err e ↦ if e.is_not_found || api.is_no_match e then ok none else err e
          ],
          after,
        )

  unfoldable pub prevent_machine_deletion : Bool → Option Machine → M (Unit {0})
  prevent_machine_deletion false m = pure tt
  prevent_machine_deletion true none = pure tt
  prevent_machine_deletion true (some m) =
      if m.is_deleted
      then pure tt
      else if not (has m.annotations (pre_drain_hook api.names))
          || not (has m.annotations (pre_terminate_hook api.names))
      then (do
        failed ← attempt api (
            update_machine (record m {
              annotations =
                  put (put m.annotations (pre_drain_hook api.names) "")
                    (pre_terminate_hook api.names) "";
            }))
        fail_if failed)
      else pure tt

  unfoldable pub machine_eventf : Machine → String → String → M (Unit {0})
  machine_eventf m reason message =
      if api.has_reference m then record_event (event machine reason message) else pure tt

  -- The machine comes back as the caller's pointer sees it.
  unfoldable pub release_hook :
      String → String → String → Bool → Option Machine → M (Option Machine)
  unfolding machine_eventf
  release_hook hook reason message false m = pure m
  release_hook hook reason message true none = pure none
  release_hook hook reason message true (some m) =
      if has m.annotations hook
      then (do
        machine_eventf m reason message
        let m' = record m { annotations = remove m.annotations hook }
        failed ← attempt api (update_machine m')
        fail_if (real_error failed)
        pure (some m'))
      else pure (some m)

  unfoldable pub allow_machine_drain : Bool → Option Machine → M (Option Machine)
  unfolding release_hook
  allow_machine_drain =
      release_hook (pre_drain_hook api.names) "SatelliteAllowedToBeDrained"
        "Satellite is ready to be drained"

  unfoldable pub allow_machine_termination : Bool → Option Machine → M (Option Machine)
  unfolding release_hook
  allow_machine_termination =
      release_hook (pre_terminate_hook api.names) "SatelliteAllowedToBeRemoved"
        "All volumes evacuated, Satellite is ready to be removed"
