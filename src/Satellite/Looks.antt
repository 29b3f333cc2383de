-- ===== src/Satellite/Looks.antt =====
-- Which calls of `deleteSatellite` in internal/controller/linstorsatellite_controller.go only read.
use piraeus_operator.Base.{
  String, Bool, [], ◌∷◌, Option, none, some, Dict, get, ◌≡◌, refl, ◌==◌, ◌||◌, not, or_else,
  Bool-cases, inl, inr,
}
use piraeus_operator.Conditions.{Conditions}
use piraeus_operator.Cluster.{
  Call, get_machine, list_services, get_secret, get_config_map, get_node, get_cluster,
}
use piraeus_operator.Cluster.Effect.{Api, Log, Result, ok, err}
use piraeus_operator.Cluster.Calls.{Calls, Calls-pure, Calls-bind, calls_rules}
use piraeus_operator.Cluster.Linstor.{LinstorApi}
use piraeus_operator.LinstorHelper.Client.{
  CaReference, ClusterRef, ca_reference_to_cert, secure, endpoints_of, client_at,
  new_client_for_cluster,
}
use piraeus_operator.ClusterApi.{get_machine_for_node}
use piraeus_operator.Satellite.Deletion.{Outcome, unless_failed}

-- The call reads a machine, a service, a secret or a config map, the cluster or a node.
abbrev pub IsLook : Call → Type 0
IsLook (get_machine n m) = Unit
IsLook (list_services n) = Unit
IsLook (get_secret n) = Unit
IsLook (get_config_map n) = Unit
IsLook (get_node n) = Unit
IsLook (get_cluster n) = Unit
IsLook _ = ⊥

module _ (lin : LinstorApi) where
  ca_reference_to_cert-Calls :
      (ref : Option CaReference) → Calls IsLook (ca_reference_to_cert lin ref)
  unfolding ca_reference_to_cert
  ca_reference_to_cert-Calls none = Calls-pure none
  ca_reference_to_cert-Calls (some ref) = search (calls_rules, tt)

  secure-Calls : (ref : ClusterRef) → Calls IsLook (secure lin ref)
  secure-Calls ref = search (calls_rules, ca_reference_to_cert-Calls, tt) depth 12

  endpoints_of-Calls :
      (ref : ClusterRef) (url : Option String) → Calls IsLook (endpoints_of lin ref url)
  endpoints_of-Calls ref (some url) = search calls_rules
  endpoints_of-Calls ref none = search (calls_rules, tt)

  client_at-Calls : (ref : ClusterRef) (url : Option String) → Calls IsLook (client_at lin ref url)
  client_at-Calls ref none = search calls_rules
  client_at-Calls ref (some url) = search (calls_rules, secure-Calls) depth 12

  pub new_client_for_cluster-Calls :
      (ref : ClusterRef) → Calls IsLook (new_client_for_cluster lin ref)
  unfolding new_client_for_cluster
  new_client_for_cluster-Calls ref =
      Calls-bind (endpoints_of lin ref ref.external_controller) (client_at lin ref)
        (endpoints_of-Calls ref ref.external_controller) (client_at-Calls ref)

pub get_machine_for_node-Calls :
    (api : Api) (connected : Bool) (annotations : Dict String)
    → Calls IsLook (get_machine_for_node api connected annotations)
unfolding get_machine_for_node
get_machine_for_node-Calls api connected annotations = record {
  at = λ log.
      elim (Bool-cases (
        not connected
        || or_else "" (get annotations api.names.cluster_namespace_annotation) == ""
        || or_else "" (get annotations api.names.machine_annotation) == "")) [
          | inl e ↦ rw e ((Calls-pure tt).at log)
          | inr e ↦ rw e (_ ∷ [], refl, (tt, tt))
        ];
}

-- What holds after a failure, and after each answer, holds of `unless_failed`.
pub unless_failed_lem :
    {A : Type 0} (Goal : Outcome → Type 0) (conds : Conditions) (k : A → Log → Outcome)
    (p : Result A × Log)
    → ((r : Result Bool) → Goal ((r, conds), p.1))
    → ((a : A) → p.0 ≡ ok a → Goal (k a p.1))
    → Goal (unless_failed conds k p)
unless_failed_lem Goal conds k (ok a, log) stop go = go a refl
unless_failed_lem Goal conds k (err e, log) stop go = stop (err e)
