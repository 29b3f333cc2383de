-- ===== src/Satellite/StateTests.antt =====
-- The state of a satellite of internal/controller/linstorsatellite_controller.go on a small cluster.
use piraeus_operator.Base.{true, [], ◌∷◌, none, some, ◌≡◌, refl, ap, ◌==◌, get, false}
use piraeus_operator.Conditions.{new}
use piraeus_operator.Cluster.{Machine}
use piraeus_operator.Cluster.Effect.{ok}
use piraeus_operator.Cluster.Calls.{Grows}
use piraeus_operator.ClusterApi.{get_machine_for_node}
use piraeus_operator.LinstorHelper.Properties.Codec.{codec, decode_from, decode-encode_all}
use piraeus_operator.LinstorHelper.Nodes.{NodeText}
use piraeus_operator.FieldPath.{ObjectMeta}
use piraeus_operator.FieldPath.Sample.{lax}
use piraeus_operator.Evacuation.Sample.{api, strategy}
use piraeus_operator.Satellite.Sample.{lin}
use piraeus_operator.Satellite.Deletion.{evacuate_policy}
use piraeus_operator.Satellite.State.{
  SatelliteState, LinstorNames, ipv4, reconcile_linstor_satellite_state,
}
use piraeus_operator.Satellite.Requests.{IsSteady}
use piraeus_operator.Satellite.Steady.{reconcile_linstor_satellite_state-IsSteady}

abbrev text : NodeText
text = record {
  json = codec;
  parse = λ s. some (decode_from "" s);
  equal_fold = λ a b. a == b;
  parse-encode = λ l. ap some (decode-encode_all l);
}

abbrev names : LinstorNames
names = record {
  parse_ip = ipv4;
  pool_key = "StorDriver/StorPoolName";
  key_autoplace_allow_target = "AutoplaceTarget";
  type_plain = "Plain";
  type_ssl = "SSL";
  port_plain = 3366;
  port_ssl = 3367;
  flag_evicted = "EVICTED";
}

abbrev state : SatelliteState
state = record {
  object = record {
    name = "n1";
    finalizers = "piraeus.io/satellite-protection" ∷ [];
    deletion_policy = evacuate_policy;
    evacuation_strategy = strategy;
    cluster_ref = record {
      name = "cluster";
      client_secret_name = "";
      ca_reference = none;
      external_controller = none;
    };
  };
  uid = "u1";
  properties = [];
  storage_pools = [];
  ip_families = [];
  has_internal_tls = false;
}

-- a node of a machine that ClusterAPI is removing
abbrev node : ObjectMeta
node = record {
  name = "n1";
  namespace = "";
  uid = "u2";
  annotations =
      ("cluster.x-k8s.io/cluster-namespace", "ns") ∷ ("cluster.x-k8s.io/machine", "m1") ∷ [];
  labels = [];
}

abbrev removed : Machine
removed = record { is_deleted = true; annotations = [] }

found : (get_machine_for_node api true node.annotations []).0 ≡ ok (some removed)
unfolding get_machine_for_node get
found = refl

reconcile_linstor_satellite_state-IsSteady_example :
    Grows
      (IsSteady evacuate_policy (some removed))
      []
      (reconcile_linstor_satellite_state api lin text lax names true state node new []).1
reconcile_linstor_satellite_state-IsSteady_example =
    reconcile_linstor_satellite_state-IsSteady api lin text lax names true state node (some removed)
      new [] found
