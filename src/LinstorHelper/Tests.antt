-- ===== src/LinstorHelper/Tests.antt =====
-- A node with two network interfaces, one of them the operator's, for pkg/linstorhelper/client.go.
use piraeus_operator.Base.{String, [], ◌∷◌, some, refl, ap, ◌==◌}
use piraeus_operator.Cluster.{NodeInfo, NetInterface, get_node}
use piraeus_operator.Cluster.Effect.{ok}
use piraeus_operator.Cluster.Calls.{Grows}
use piraeus_operator.Cluster.Trace.{IsDoneWith}
use piraeus_operator.Cluster.Linstor.{LinstorApi}
use piraeus_operator.Evacuation.Sample.{api}
use piraeus_operator.Satellite.Sample.{lin}
use piraeus_operator.LinstorHelper.Properties.Codec.{codec, decode_from, decode-encode_all}
use piraeus_operator.LinstorHelper.Nodes.{NodeText, WantedNode, create_or_update_node}
use piraeus_operator.LinstorHelper.Interfaces.{change_calls, create_or_update_node-IsDoneWith}
use piraeus_operator.LinstorHelper.Stale.{IsStaleOnly, create_or_update_node-IsStaleOnly}

abbrev text : NodeText
text = record {
  json = codec;
  parse = λ s. some (decode_from "" s);
  equal_fold = λ a b. a == b;
  parse-encode = λ l. ap some (decode-encode_all l);
}

abbrev nic_of : String → String → NetInterface
nic_of name address = record {
  name = name;
  address = address;
  satellite_port = 3366;
  satellite_encryption_type = "Plain";
}

abbrev existing : NodeInfo
existing = record {
  name = "n1";
  flags = [];
  props = [];
  net_interfaces =
      nic_of "default-ipv4" "10.0.0.1" ∷ nic_of "default-ipv6" "::1" ∷ nic_of "dr" "10.9.0.1" ∷ [];
  connection_status = "ONLINE";
}

abbrev wanted : WantedNode
wanted = record { name = "n1"; props = []; net_interfaces = nic_of "default-ipv4" "10.0.0.2" ∷ [] }

abbrev with_node : LinstorApi → LinstorApi
with_node lin = record lin { node = λ name log. ok existing }

create_or_update_node-IsDoneWith_example :
    IsDoneWith
      (create_or_update_node text api (with_node lin) wanted [])
      (get_node "n1" ∷ change_calls text wanted existing)
create_or_update_node-IsDoneWith_example =
    create_or_update_node-IsDoneWith text api (with_node lin) wanted existing [] refl

create_or_update_node-IsStaleOnly_example :
    Grows
      (IsStaleOnly text api (with_node lin) wanted existing)
      []
      (create_or_update_node text api (with_node lin) wanted []).1
create_or_update_node-IsStaleOnly_example =
    create_or_update_node-IsStaleOnly text api (with_node lin) wanted existing [] refl
