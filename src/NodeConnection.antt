-- ===== src/NodeConnection.antt =====
-- internal/controller/linstornodeconnection_controller.go: the properties of the connections between
-- LINSTOR nodes. The types are those of api/v1/linstornodeconnection_types.go.
use piraeus_operator.Base.{
  ℕ, zero, suc, String, Bool, true, false, List, [], ◌∷◌, ◌++◌, Option, none, some, ◌⧺◌, ◌==◌, ◌&&◌,
  ◌||◌, not, if◌then◌else◌, Dict, get, put, remove, keys, or_else, is_some, is_empty, contains,
  sort, str_leb, length, ltb, eqb,
}
use piraeus_operator.Conditions.{ConditionStatus}
use piraeus_operator.Cluster.{Node, LinstorSatellite, StatusCondition}
use piraeus_operator.LinstorHelper.Properties.{
  Json, Props, GenericPropsModify, update_last_apply_property, make_properties_modification,
}
use piraeus_operator.Evacuation.Reattach.{is_condition_true}
pub mod Selectors
pub mod Merged
pub mod Desired
mod Tests

pub data MatchLabelSelectorOperator : Type 0 where
  exists does_not_exist is_in not_in same not_same : MatchLabelSelectorOperator
  unknown : String → MatchLabelSelectorOperator

pub record MatchLabelSelector : Type 0 where
  pub key : String
  pub op : MatchLabelSelectorOperator
  pub values : List String

pub record SelectorTerm : Type 0 where
  pub match_labels : List MatchLabelSelector

pub record LinstorNodeConnectionPath : Type 0 where
  pub name : String
  pub interface : String

pub record LinstorNodeConnection : Type 0 where
  pub selector : List SelectorTerm
  pub properties : Dict String
  pub paths : List LinstorNodeConnectionPath

-- `lapi.Connection`
pub record Connection : Type 0 where
  pub node_a : String
  pub node_b : String
  pub props : Props

abbrev pub labels_from : Dict (Dict String) → List Node → Dict (Dict String)
labels_from result [] = result
labels_from result (n ∷ nodes) = labels_from (put result n.name n.labels) nodes

unfoldable pub node_label_map : List Node → Dict (Dict String)
node_label_map nodes = labels_from [] nodes

-- `nodeLabelMap[node][key]`, and whether it is there
abbrev pub label_of : Dict (Dict String) → String → String → Option String
label_of labels node key = get (or_else [] (get labels node)) key

abbrev pub same_text : Option String → Option String → Bool
same_text a b = or_else "" a == or_else "" b

unfoldable pub evaluate_op :
    MatchLabelSelectorOperator → List String → Option String → Option String → Bool
evaluate_op exists values a b = is_some a && is_some b
evaluate_op does_not_exist values a b = not (is_some a) && not (is_some b)
evaluate_op is_in values a b = contains values (or_else "" a) && contains values (or_else "" b)
evaluate_op not_in values a b =
    not (contains values (or_else "" a)) && not (contains values (or_else "" b))
evaluate_op same values a b = same_text a b
evaluate_op not_same values a b = not (same_text a b)
evaluate_op (unknown text) values a b = false

unfoldable pub evaluate_exprs :
    List MatchLabelSelector → String → String → Dict (Dict String) → Bool
evaluate_exprs [] a b labels = true
evaluate_exprs (e ∷ es) a b labels =
    evaluate_op e.op e.values (label_of labels a e.key) (label_of labels b e.key)
    && evaluate_exprs es a b labels

abbrev pub evaluate_term : SelectorTerm → String → String → Dict (Dict String) → Bool
evaluate_term term = evaluate_exprs term.match_labels

unfoldable pub any_term : List SelectorTerm → String → String → Dict (Dict String) → Bool
any_term [] a b labels = false
any_term (t ∷ ts) a b labels = evaluate_term t a b labels || any_term ts a b labels

unfoldable pub node_connection_applies :
    List SelectorTerm → String → String → Dict (Dict String) → Bool
node_connection_applies selectors a b labels = is_empty selectors || any_term selectors a b labels

-- `for k, v := range p { props[k] = v }`
unfoldable pub put_all : Props → Props → Props
put_all props [] = props
put_all props ((k, v) ∷ rest) = put_all (put props k v) rest

-- `ResolveClusterProperties` of pkg/utils/property_resolution.go
unfoldable pub resolve_cluster_properties : Props → Props → Props
resolve_cluster_properties defaults props = put_all defaults props

-- `namespace` is LINSTOR's `NamespcConnectionPaths`.
abbrev pub path_key : String → String → String → String
path_key namespace path node = namespace ⧺ "/" ⧺ path ⧺ "/" ⧺ node

unfoldable pub put_paths : String → String → String → Props → List LinstorNodeConnectionPath → Props
put_paths namespace a b props [] = props
put_paths namespace a b props (p ∷ paths) =
    put_paths namespace a b
      (put (put props (path_key namespace p.name a) p.interface) (path_key namespace p.name b)
        p.interface)
      paths

unfoldable pub merge_node_connection :
    String → Props → LinstorNodeConnection → String → String → Props
merge_node_connection namespace props conn a b =
    put_paths namespace a b (put_all props (resolve_cluster_properties [] conn.properties))
      conn.paths

-- The inner loop of `DesiredNodeConnections`.
unfoldable pub merge_applying :
    String → Dict (Dict String) → String → String → Props → List LinstorNodeConnection → Props
merge_applying namespace labels a b props [] = props
merge_applying namespace labels a b props (c ∷ conns) =
    merge_applying namespace labels a b
      (if node_connection_applies c.selector a b labels
        then merge_node_connection namespace props c a b
        else props)
      conns

abbrev pub nth : List String → ℕ → String
nth [] i = ""
nth (x ∷ xs) zero = x
nth (x ∷ xs) (suc i) = nth xs i

abbrev pub connection_name : String → String → String
connection_name a b = a ⧺ "|" ⧺ b

abbrev pub pair_at : List String → ℕ × ℕ → String × String
pair_at names (i, j) = (nth names i, nth names j)

abbrev pub pairs_at : List String → List (ℕ × ℕ) → List (String × String)
pairs_at names [] = []
pairs_at names (ij ∷ rest) = pair_at names ij ∷ pairs_at names rest

-- The outer loop of `DesiredNodeConnections`, over pairs of positions.
unfoldable pub desired_from :
    String
    → List LinstorNodeConnection
    → Dict (Dict String)
    → Dict Connection
    → List (String × String)
    → Dict Connection
desired_from namespace conns labels result [] = result
desired_from namespace conns labels result ((a, b) ∷ pairs) =
    let props = merge_applying namespace labels a b [] conns in
    desired_from namespace conns labels
      (if is_empty props
        then result
        else put result (connection_name a b) (record { node_a = a; node_b = b; props = props }))
      pairs

-- `combinations n` are the pairs that `combin.NewCombinationGenerator(n, 2)` generates.
unfoldable pub desired_node_connections :
    String
    → (ℕ → List (ℕ × ℕ))
    → List LinstorNodeConnection
    → Dict Bool
    → Dict (Dict String)
    → Dict Connection
desired_node_connections namespace combinations conns satellites labels =
    let names = sort str_leb (keys satellites) in
    if ltb (length satellites) 2
    then []
    else desired_from namespace conns labels [] (pairs_at names (combinations (length satellites)))

pub record ClusterReference : Type 0 where
  pub name : String
  pub client_secret_name : String

-- `satellites` says of each name whether it is online.
pub record ClusterView : Type 0 where
  pub cluster_ref : ClusterReference
  pub satellites : Dict Bool

abbrev pub is_current : ℕ → StatusCondition → Bool
is_current generation c = eqb c.observed_generation generation && is_condition_true c.status

unfoldable pub is_online : LinstorSatellite → Bool
is_online sat = elim (sat.condition "Available") [
  | none ↦ false
  | some c ↦ is_current sat.generation c
]

-- The loop of `ClustersBySatellites`, over satellites with `.spec.clusterRef`.
unfoldable pub clusters_from :
    Dict ClusterView → List (ClusterReference × LinstorSatellite) → Dict ClusterView
clusters_from result [] = result
clusters_from result ((ref, sat) ∷ rest) =
    let view = or_else (record { cluster_ref = ref; satellites = [] }) (get result ref.name) in
    clusters_from
      (put result ref.name
        (record view { satellites = put view.satellites sat.name (is_online sat) }))
      rest

unfoldable pub clusters_by_satellites :
    List (ClusterReference × LinstorSatellite) → Dict ClusterView
clusters_by_satellites satellites = clusters_from [] satellites

-- A call of `SetNodeConnection`.
abbrev pub Change : Type 0
Change = (String × String) × GenericPropsModify

abbrev pub props_of : Option Connection → Props
props_of none = []
props_of (some c) = c.props

abbrev pub change_of : String → String → Option GenericPropsModify → List Change
change_of a b none = []
change_of a b (some m) = ((a, b), m) ∷ []

abbrev pub is_available : Dict Bool → String → Bool
is_available satellites name = or_else false (get satellites name)

module _ (json : Json) where
  -- The first loop of `reconcileAll` for a cluster: the changes, and what is still desired.
  unfoldable pub change_actual : Dict Connection → List Connection → List Change × Dict Connection
  change_actual desired [] = ([], desired)
  change_actual desired (c ∷ actual) =
      let name = connection_name c.node_a c.node_b in
      let (changes, left) = change_actual (remove desired name) actual in
      (
        change_of c.node_a c.node_b
              (make_properties_modification json c.props (props_of (get desired name)))
            ++ changes,
        left,
      )

  -- Its second loop, over what is still desired.
  unfoldable pub change_missing : Dict Bool → Dict Connection → List Change
  change_missing satellites [] = []
  change_missing satellites ((name, c) ∷ rest) =
      let later = change_missing satellites rest in
      if not (is_available satellites c.node_a) || not (is_available satellites c.node_b)
      then later
      else (
        (c.node_a, c.node_b),
        record { override_props = update_last_apply_property json c.props; delete_props = [] },
      )
        ∷ later

  unfoldable pub reconcile_cluster : Dict Bool → Dict Connection → List Connection → List Change
  reconcile_cluster satellites desired actual =
      let (changes, left) = change_actual desired actual in
      changes ++ change_missing satellites left
