-- ===== src/Satellite/Sample.antt =====
-- A LINSTOR controller that knows every node and no pool, for the examples of
-- internal/controller/linstorsatellite_controller.go.
use piraeus_operator.Base.{true, false, [], ◌∷◌, none}
use piraeus_operator.Cluster.{Service}
use piraeus_operator.Cluster.Effect.{ok}
use piraeus_operator.Cluster.Linstor.{LinstorApi}

abbrev pub controller : Service
controller = record {
  name = "linstor";
  namespace = "piraeus";
  ports = record { name = "secure-api"; port = 3371 } ∷ record { name = "api"; port = 3370 } ∷ [];
}

abbrev pub lin : LinstorApi
lin = record {
  services = λ name log. ok (controller ∷ []);
  secret = λ name log. ok (record { kind = "Opaque"; entries = [] });
  config_map = λ name log. ok (record { kind = ""; entries = [] });
  max_concurrent_evacuations = λ name log. ok 1;
  node = λ name log. ok (record {
    name = name;
    flags = [];
    props = [];
    net_interfaces = [];
    connection_status = "ONLINE";
  });
  pools = λ node log. ok [];
  pool = λ node name log. ok (record { storage_pool_name = name; node_name = node; props = [] });
  output = λ command log. record { stdout = ""; failed = none; is_exit_code = false };
  has_certificates = λ pem. true;
  key_pair_error = λ cert key. none;
  client_error = none;
  pods = λ uid log. ok (
      record { node_name = "n1"; pod_ips = "10.0.0.1" ∷ []; conditions = ("Ready", "True") ∷ [] }
      ∷ []);
  version_error = λ log. none;
}
