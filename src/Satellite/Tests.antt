-- ===== src/Satellite/Tests.antt =====
-- The deletion of a satellite of internal/controller/linstorsatellite_controller.go on a small cluster.
use piraeus_operator.Base.{true, [], ◌∷◌, none, refl, ◌⊎◌}
use piraeus_operator.Conditions.{new}
use piraeus_operator.Cluster.Calls.{Grows}
use piraeus_operator.Evacuation.Sample.{api, strategy}
use piraeus_operator.Satellite.Deletion.{
  SatelliteObject, evacuate_policy, delete_policy, delete_satellite,
}
use piraeus_operator.Satellite.Release.{IsHeld, MayRelease, delete_satellite-held}
use piraeus_operator.Satellite.Policy.{IsAllowed, delete_satellite-IsAllowed}
use piraeus_operator.Satellite.Sample.{lin}

abbrev satellite : SatelliteObject
satellite = record {
  name = "n1";
  finalizers = "piraeus.io/satellite-protection" ∷ [];
  deletion_policy = evacuate_policy;
  evacuation_strategy = strategy;
  cluster_ref = record {
    name = "cluster";
    client_secret_name = "";
    ca_reference = none;
    external_controller = none;
  };
}

delete_satellite-held_example :
    Grows IsHeld [] (delete_satellite api lin true satellite [] new []).1
    ⊎ MayRelease api lin true satellite []
delete_satellite-held_example = delete_satellite-held api lin true satellite [] [] new refl

delete_satellite-IsAllowed_example :
    Grows
      (IsAllowed (record satellite { deletion_policy = delete_policy }))
      []
      (delete_satellite api lin true
        (record satellite { deletion_policy = delete_policy })
        []
        new
        []).1
delete_satellite-IsAllowed_example =
    delete_satellite-IsAllowed api lin true (record satellite { deletion_policy = delete_policy })
      [] new []
