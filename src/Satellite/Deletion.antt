-- ===== src/Satellite/Deletion.antt =====
-- `deleteSatellite` of internal/controller/linstorsatellite_controller.go. The conditions are returned
-- as the evacuation leaves them.
use piraeus_operator.Base.{
  ℕ, String, Bool, true, false, List, Option, none, some, ◌==◌, not, if◌then◌else◌, contains,
  select, Dict,
}
use piraeus_operator.Conditions.{Conditions}
use piraeus_operator.Cluster.{
  NodeInfo, LinstorNode, Machine, get_cluster, get_node, lost_node, delete_node, update_satellite,
}
use piraeus_operator.Cluster.Effect.{
  Api, M, Log, Result, ok, err, pure, attempt, fail_if, real_error, ask, ◌>>=◌, ◌>>◌,
}
use piraeus_operator.Cluster.Linstor.{LinstorApi}
use piraeus_operator.LinstorHelper.Client.{ClusterRef, LinstorClient, new_client_for_cluster}
use piraeus_operator.ClusterApi.{
  get_machine_for_node, allow_machine_drain, allow_machine_termination,
}
use piraeus_operator.Evacuation.Reattach.{EvacuationStrategy}
use piraeus_operator.Evacuation.Run.{run}

-- `DeletionPolicy`; no other text passes the API server
pub data DeletionPolicy : Type 0 where
  no_policy evacuate_policy retain_policy delete_policy : DeletionPolicy

-- A satellite's object, as far as its deletion reads it.
pub record SatelliteObject : Type 0 where
  pub name : String
  pub finalizers : List String
  pub deletion_policy : DeletionPolicy
  pub evacuation_strategy : EvacuationStrategy
  pub cluster_ref : ClusterRef

-- `vars.SatelliteFinalizer`
abbrev pub satellite_finalizer : String
satellite_finalizer = "piraeus.io/satellite-protection"

-- An outcome with the conditions.
abbrev pub Outcome : Type 0
Outcome = (Result Bool × Conditions) × Log

abbrev pub with_conditions : Conditions → Result Bool × Log → Outcome
with_conditions conds (r, log) = ((r, conds), log)

-- `if err != nil { return false, err }`
abbrev pub unless_failed :
    {A : Type 0} → Conditions → (A → Log → Outcome) → Result A × Log → Outcome
unless_failed conds k (ok a, log) = k a log
unless_failed conds k (err e, log) = ((err e, conds), log)

-- The answer of `Nodes.Get`, where a missing node is `none`
abbrev pub if_found : Result NodeInfo → Result (Option LinstorNode)
if_found (ok n) = ok (some (record { name = n.name; flags = n.flags }))
if_found (err e) = if e.is_not_found then ok none else err e

-- `maxConcurrentEvacuations`: no cluster, no limit
abbrev pub limit_of : Result ℕ → Result ℕ
limit_of (ok n) = ok n
limit_of (err e) = if e.is_not_found then ok 0 else err e

module _ (api : Api) (lin : LinstorApi) (connected : Bool) (sat : SatelliteObject) where
  abbrev pub max_concurrent_evacuations : M ℕ
  max_concurrent_evacuations =
      ask (get_cluster sat.cluster_ref.name)
        (λ log. limit_of (lin.max_concurrent_evacuations sat.cluster_ref.name log))

  -- the finalizer is taken off, and the satellite is written
  unfoldable pub release : M Bool
  release = do
    failed ←
        attempt api
          (update_satellite sat.name (select (λ f. not (f == satellite_finalizer)) sat.finalizers))
    fail_if failed
    pure true

  -- there is no LINSTOR cluster to speak of
  unfoldable pub release_without_cluster : Option Machine → M Bool
  release_without_cluster machine = do
    machine ← allow_machine_drain api connected machine
    allow_machine_termination api connected machine
    release

  unfoldable pub delete_and_release : M Bool
  delete_and_release = do
    failed ← attempt api (delete_node sat.name)
    fail_if (real_error failed)
    release

  unfoldable pub lose_and_release : M Bool
  lose_and_release = do
    failed ← attempt api (lost_node sat.name)
    fail_if (real_error failed)
    release

  -- what follows an evacuation
  abbrev pub once_evacuated : Outcome → Outcome
  once_evacuated ((ok true, conds), log) = with_conditions conds (delete_and_release log)
  once_evacuated ((ok false, conds), log) = ((ok false, conds), log)
  once_evacuated ((err e, conds), log) = ((err e, conds), log)

  -- the case `DeletionPolicyEvacuate`, for the node that LINSTOR has
  abbrev pub evacuate_found : Option Machine → Conditions → Option LinstorNode → Log → Outcome
  evacuate_found machine conds none log = with_conditions conds (release log)
  evacuate_found machine conds (some node) log =
      unless_failed conds
        (λ limit at.
          once_evacuated (run api connected sat.evacuation_strategy node machine conds limit at))
        (max_concurrent_evacuations log)

  -- the switch on the policy
  unfoldable pub by_policy : DeletionPolicy → Option Machine → Conditions → Log → Outcome
  by_policy evacuate_policy machine conds log =
      unless_failed conds (evacuate_found machine conds)
        (ask (get_node sat.name) (λ at. if_found (lin.node sat.name at)) log)
  by_policy delete_policy machine conds log = with_conditions conds (lose_and_release log)
  by_policy no_policy machine conds log = with_conditions conds (release log)
  by_policy retain_policy machine conds log = with_conditions conds (release log)

  abbrev pub for_client : Option Machine → Conditions → Option LinstorClient → Log → Outcome
  for_client machine conds none log = with_conditions conds (release_without_cluster machine log)
  for_client machine conds (some client) log = by_policy sat.deletion_policy machine conds log

  abbrev pub for_machine : Conditions → Option Machine → Log → Outcome
  for_machine conds machine log =
      unless_failed conds (for_client machine conds)
        (new_client_for_cluster lin sat.cluster_ref log)

  unfoldable pub delete_satellite : Dict String → Conditions → Log → Outcome
  delete_satellite annotations conds log =
      if not (contains sat.finalizers satellite_finalizer)
      then ((ok true, conds), log)
      else unless_failed conds (for_machine conds)
          (get_machine_for_node api connected annotations log)
