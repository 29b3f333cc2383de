-- ===== src/NodeConnection/Tests.antt =====
-- internal/controller/linstornodeconnection_controller.go on three nodes, and its theorems there.
use piraeus_operator.Base.{
  ℕ, String, Bool, true, false, List, [], ◌∷◌, ◌≡◌, refl, All, Dict, get, put, sort, insert,
  str_leb, keys, length, ltb, ◌⊎◌,
}
use piraeus_operator.Cluster.{Node}
use piraeus_operator.LinstorHelper.Properties.Codec.{codec}
use piraeus_operator.NodeConnection.{
  LinstorNodeConnection, Connection, SelectorTerm, same, node_connection_applies, any_term,
  evaluate_exprs, evaluate_op, node_label_map, desired_node_connections, desired_from,
  merge_applying, merge_node_connection, put_paths, put_all, resolve_cluster_properties,
  reconcile_cluster, pairs_at,
}
use piraeus_operator.NodeConnection.Selectors.{node_connection_applies_symm}
use piraeus_operator.NodeConnection.Desired.{
  IsDesired, IsReached, IsJustified, desired_node_connections-IsDesired,
  reconcile_cluster-IsJustified,
}

abbrev node_in : String → String → Node
node_in name zone = record { name = name; labels = ("zone", zone) ∷ [] }

abbrev labels : Dict (Dict String)
labels = ("a", ("zone", "1") ∷ []) ∷ ("b", ("zone", "1") ∷ []) ∷ ("c", ("zone", "2") ∷ []) ∷ []

labels_of_nodes : node_label_map (node_in "a" "1" ∷ node_in "b" "1" ∷ node_in "c" "2" ∷ []) ≡ labels
unfolding node_label_map put
labels_of_nodes = refl

abbrev same_zone : List SelectorTerm
same_zone = record { match_labels = record { key = "zone"; op = same; values = [] } ∷ [] } ∷ []

abbrev fast : LinstorNodeConnection
fast = record {
  selector = same_zone;
  properties = ("DrbdOptions/Net/protocol", "C") ∷ [];
  paths = record { name = "p"; interface = "if0" } ∷ [];
}

abbrev combinations : ℕ → List (ℕ × ℕ)
combinations n = (0, 1) ∷ (0, 2) ∷ (1, 2) ∷ []

abbrev satellites : Dict Bool
satellites = ("c", true) ∷ ("b", true) ∷ ("a", true) ∷ []

wanted :
    desired_node_connections "Paths" combinations (fast ∷ []) satellites labels
    ≡ (
      "a|b",
      record {
        node_a = "a";
        node_b = "b";
        props =
            ("DrbdOptions/Net/protocol", "C") ∷ ("Paths/p/a", "if0") ∷ ("Paths/p/b", "if0") ∷ [];
      },
    )
      ∷ []
unfolding desired_node_connections desired_from merge_applying merge_node_connection
    node_connection_applies any_term evaluate_exprs evaluate_op put_paths put_all
    resolve_cluster_properties get put sort insert
wanted = refl

node_connection_applies_symm_example :
    node_connection_applies same_zone "a" "b" labels
    ≡ node_connection_applies same_zone "b" "a" labels
node_connection_applies_symm_example = node_connection_applies_symm "a" "b" labels same_zone

abbrev pairs : List (String × String)
pairs = pairs_at (sort str_leb (keys satellites)) (combinations (length satellites))

desired_node_connections-IsDesired_example :
    All
      (IsDesired "Paths" (fast ∷ []) labels pairs)
      (desired_node_connections "Paths" combinations (fast ∷ []) satellites labels)
    × (ltb (length satellites) 2 ≡ true
        ⊎ All
            (IsReached "Paths"
              (fast ∷ [])
              labels
              (desired_node_connections "Paths" combinations (fast ∷ []) satellites labels))
            pairs)
desired_node_connections-IsDesired_example =
    desired_node_connections-IsDesired "Paths" (fast ∷ []) labels combinations satellites

abbrev offline : Dict Bool
offline = ("a", true) ∷ ("b", false) ∷ ("c", true) ∷ []

abbrev desired : Dict Connection
desired =
    ("a|b", record { node_a = "a"; node_b = "b"; props = ("k", "v") ∷ [] })
    ∷ ("a|c", record { node_a = "a"; node_b = "c"; props = ("k", "v") ∷ [] })
    ∷ []

abbrev actual : List Connection
actual = record { node_a = "b"; node_b = "c"; props = [] } ∷ []

reconcile_cluster-IsJustified_example :
    All (IsJustified offline actual) (reconcile_cluster codec offline desired actual)
reconcile_cluster-IsJustified_example = reconcile_cluster-IsJustified codec offline desired actual
