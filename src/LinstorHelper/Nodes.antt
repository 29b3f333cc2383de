-- ===== src/LinstorHelper/Nodes.antt =====
-- `CreateOrUpdateNode` of pkg/linstorhelper/client.go: a node in LINSTOR with its properties and network
-- interfaces. An address is its text in canonical form, and what errors quote is left out.
use piraeus_operator.Base.{
  String, Bool, true, false, List, [], ◌∷◌, ◌++◌, Option, none, some, ◌≡◌, ◌==◌, ◌&&◌, not,
  if◌then◌else◌, Dict, get, put, or_else, contains, map, sort, str_leb, eqb,
}
use piraeus_operator.Cluster.{
  NodeInfo, NetInterface, get_node, create_node, modify_node, create_interface, modify_interface,
  delete_interface,
}
use piraeus_operator.Cluster.Effect.{
  Api, M, Result, ok, err, pure, throw, ask, attempt, fail_if, wrapped, ◌>>=◌, ◌>>◌, wrap,
}
use piraeus_operator.Cluster.Linstor.{LinstorApi}
use piraeus_operator.LinstorHelper.Properties.{
  Json, GenericPropsModify, update_last_apply_property, make_properties_modification,
}

-- `encoding/json` where its errors are read, and `strings.EqualFold`
pub record NodeText : Type 0 where
  pub json : Json
  pub parse : String → Option (List String)
  pub equal_fold : String → String → Bool
  pub parse-encode : (l : List String) → parse (json.encode l) ≡ some l

-- `lapi.Node`, as far as it is set here
pub record WantedNode : Type 0 where
  pub name : String
  pub props : Dict String
  pub net_interfaces : List NetInterface

-- `NodeInterfaceProperty`
abbrev pub node_interface_property : String
node_interface_property = "Aux/piraeus.io/configured-interfaces"

abbrev pub default_managed_interfaces : List String
default_managed_interfaces = "default" ∷ "default-ipv4" ∷ "default-ipv6" ∷ []

abbrev pub names_of : List NetInterface → List String
names_of nics = map (λ (n : NetInterface). n.name) nics

module _ (text : NodeText) where
  unfoldable pub applied_interface_annotation : List NetInterface → String
  applied_interface_annotation nics = text.json.encode (sort str_leb (names_of nics))

  -- a text that is no list, and no text at all, stand for the default
  abbrev pub managed_from : Option String → List String
  managed_from none = default_managed_interfaces
  managed_from (some val) = or_else default_managed_interfaces (text.parse val)

  unfoldable pub managed_interfaces : Dict String → List String
  managed_interfaces props = managed_from (get props node_interface_property)

  abbrev pub is_same_interface : NetInterface → NetInterface → Bool
  is_same_interface old wanted =
      old.address == wanted.address
      && text.equal_fold old.satellite_encryption_type wanted.satellite_encryption_type
      && eqb old.satellite_port wanted.satellite_port

  -- `node.Props[NodeInterfaceProperty] = props`
  abbrev pub annotated : WantedNode → Dict String
  annotated wanted =
      put wanted.props node_interface_property (applied_interface_annotation wanted.net_interfaces)

  -- an interface that the operator has made and does not want any more
  abbrev pub is_stale_interface : NodeInfo → List NetInterface → NetInterface → Bool
  is_stale_interface existing wanted nic =
      contains (managed_interfaces existing.props) nic.name
      && not (contains (names_of wanted) nic.name)

  module _ (api : Api) (lin : LinstorApi) where
    -- the first interface of the name decides
    unfoldable pub ensure_wanted_interface :
        String → List NetInterface → NetInterface → M (Unit {0})
    ensure_wanted_interface node [] wanted = do
      failed ← attempt api (create_interface node wanted)
      fail_if failed
    ensure_wanted_interface node (old ∷ rest) wanted = elim (old.name == wanted.name) [
      | false ↦ ensure_wanted_interface node rest wanted
      | true ↦
          if is_same_interface old wanted
          then pure tt
          else attempt api (modify_interface node wanted) >>= fail_if
    ]

    unfoldable pub ensure_all : NodeInfo → List NetInterface → M (Unit {0})
    ensure_all existing [] = pure tt
    ensure_all existing (nic ∷ nics) =
        wrapped "failed to update network interface"
          (ensure_wanted_interface existing.name existing.net_interfaces nic)
        >> ensure_all existing nics

    abbrev pub delete_nic : String → NetInterface → M (Unit {0})
    delete_nic node nic = do
      failed ← attempt api (delete_interface node nic.name)
      wrapped "failed to delete network interface" (fail_if failed)

    unfoldable pub delete_stale :
        String → NodeInfo → List NetInterface → List NetInterface → M (Unit {0})
    delete_stale node existing wanted [] = pure tt
    delete_stale node existing wanted (nic ∷ nics) =
        if is_stale_interface existing wanted nic
        then delete_nic node nic >> delete_stale node existing wanted nics
        else delete_stale node existing wanted nics

    abbrev pub modify_if : String → Option GenericPropsModify → M (Unit {0})
    modify_if node none = pure tt
    modify_if node (some m) =
        attempt api (modify_node node m.override_props m.delete_props) >>= fail_if

    -- what is done for a node that LINSTOR has, with the properties to reach
    abbrev pub update_existing : WantedNode → NodeInfo × Dict String → M NodeInfo
    update_existing wanted (existing, props) = do
      modify_if wanted.name (make_properties_modification text.json existing.props props)
      ensure_all existing wanted.net_interfaces
      delete_stale wanted.name existing wanted.net_interfaces existing.net_interfaces
      pure existing

    abbrev pub create_missing : WantedNode → Dict String → M (NodeInfo × Dict String)
    create_missing wanted props = do
      failed ← attempt api (create_node wanted.name props wanted.net_interfaces)
      wrapped "unable to create node" (fail_if failed)
      existing ←
          wrapped "unable to get newly created node"
            (ask (get_node wanted.name) (lin.node wanted.name))
      pure (existing, props)

    -- the node as LINSTOR has it, which is created where it is missing
    abbrev pub existing_or_new : WantedNode → Result NodeInfo → M (NodeInfo × Dict String)
    existing_or_new wanted (ok existing) = pure (existing, annotated wanted)
    existing_or_new wanted (err e) =
        if e.is_not_found
        then create_missing wanted (update_last_apply_property text.json (annotated wanted))
        else throw (wrap "unable to get node" e)

    abbrev pub find_or_create : WantedNode → M (NodeInfo × Dict String)
    find_or_create wanted log =
        existing_or_new wanted (lin.node wanted.name log) (log ++ get_node wanted.name ∷ [])

    unfoldable pub create_or_update_node : WantedNode → M NodeInfo
    create_or_update_node wanted = find_or_create wanted >>= update_existing wanted
