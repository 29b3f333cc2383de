-- ===== src/LinstorHelper/Interfaces.antt =====
-- What `CreateOrUpdateNode` of pkg/linstorhelper/client.go does to the network interfaces of a node.
use mathlib.Core.List.{append-nil, append_assoc}
use piraeus_operator.Base.{
  String, Bool, true, false, List, [], ◌∷◌, ◌++◌, Option, none, some, ◌≡◌, refl, subst, ◌==◌,
  if◌then◌else◌, select, find_first, map, Bool-cases, inl, inr, sym,
}
use piraeus_operator.Cluster.{
  Call, NodeInfo, NetInterface, get_node, modify_node, create_interface, modify_interface,
  delete_interface,
}
use piraeus_operator.Cluster.Effect.{Api, Log, ok, ◌>>=◌, pure, attempt, fail_if}
use piraeus_operator.Cluster.Trace.{
  Traces, IsDoneWith, Traces-pure, Traces-attempt, Traces-fail_if, Traces-wrapped, Traces-bind,
  Traces-then,
}
use piraeus_operator.Cluster.Linstor.{LinstorApi}
use piraeus_operator.LinstorHelper.Properties.{GenericPropsModify, make_properties_modification}
use piraeus_operator.LinstorHelper.Nodes.{
  NodeText, WantedNode, is_same_interface, is_stale_interface, annotated, ensure_wanted_interface,
  ensure_all, delete_nic, delete_stale, modify_if, update_existing, create_or_update_node,
}

module _ (text : NodeText) where
  abbrev pub calls_for : String → NetInterface → Option NetInterface → List Call
  calls_for node nic none = create_interface node nic ∷ []
  calls_for node nic (some old) =
      if is_same_interface text old nic then [] else modify_interface node nic ∷ []

  -- The calls for one wanted interface: none where the node's first interface of that name agrees with it.
  abbrev pub needed_for : NodeInfo → NetInterface → List Call
  needed_for existing nic =
      calls_for existing.name nic
        (find_first (λ (o : NetInterface). o.name == nic.name) existing.net_interfaces)

  abbrev pub needed : NodeInfo → List NetInterface → List Call
  needed existing [] = []
  needed existing (nic ∷ nics) = needed_for existing nic ++ needed existing nics

  abbrev pub modification : WantedNode → NodeInfo → List Call
  modification wanted existing =
      elim (make_properties_modification text.json existing.props (annotated text wanted)) [
        | none ↦ []
        | some m ↦ modify_node wanted.name m.override_props m.delete_props ∷ []
      ]

  abbrev pub deletions : WantedNode → NodeInfo → List Call
  deletions wanted existing =
      map (λ (n : NetInterface). delete_interface wanted.name n.name)
        (select (is_stale_interface text existing wanted.net_interfaces) existing.net_interfaces)

  -- the changes of a node that LINSTOR has, in their order
  abbrev pub change_calls : WantedNode → NodeInfo → List Call
  change_calls wanted existing =
      modification wanted existing
      ++ (needed existing wanted.net_interfaces ++ deletions wanted existing)

  module _ (api : Api) (lin : LinstorApi) where
    Traces-known :
        (node : String) (b : Bool) (nic : NetInterface)
        → Traces
            (if b then pure tt else attempt api (modify_interface node nic) >>= fail_if)
            (if b then [] else modify_interface node nic ∷ [])
    Traces-known node true nic = Traces-pure tt
    Traces-known node false nic =
        Traces-bind _ _ _ [] (Traces-attempt api (modify_interface node nic)) Traces-fail_if

    ensure-Traces :
        (node : String) (olds : List NetInterface) (nic : NetInterface)
        → Traces
            (ensure_wanted_interface text api lin node olds nic)
            (calls_for node nic (find_first (λ (o : NetInterface). o.name == nic.name) olds))
    unfolding ensure_wanted_interface
    ensure-Traces node [] nic =
        Traces-bind _ _ _ [] (Traces-attempt api (create_interface node nic)) Traces-fail_if
    ensure-Traces node (old ∷ olds) nic = elim (Bool-cases (old.name == nic.name)) [
      | inl e ↦
          rw (ensure_wanted_interface, e) (Traces-known node (is_same_interface text old nic) nic)
      | inr e ↦ rw (ensure_wanted_interface, e) (ensure-Traces node olds nic)
    ]

    ensure_all-Traces :
        (existing : NodeInfo) (nics : List NetInterface)
        → Traces (ensure_all text api lin existing nics) (needed existing nics)
    unfolding ensure_all
    ensure_all-Traces existing [] = Traces-pure tt
    ensure_all-Traces existing (nic ∷ nics) =
        Traces-then _ (ensure_all text api lin existing nics) (needed_for existing nic)
          (needed existing nics)
          (Traces-wrapped "failed to update network interface" _ _
            (ensure-Traces existing.name existing.net_interfaces nic))
          (ensure_all-Traces existing nics)

    delete_stale-Traces :
        (node : String) (existing : NodeInfo) (wanted nics : List NetInterface)
        → Traces (delete_stale text api lin node existing wanted nics) (
            map
              (λ (n : NetInterface). delete_interface node n.name)
              (select (is_stale_interface text existing wanted) nics))
    unfolding delete_stale
    delete_stale-Traces node existing wanted [] = Traces-pure tt
    delete_stale-Traces node existing wanted (nic ∷ nics) =
        elim (Bool-cases (is_stale_interface text existing wanted nic)) [
          | inl e ↦
              rw (delete_stale, e)
                (Traces-then (delete_nic text api lin node nic)
                  (delete_stale text api lin node existing wanted nics)
                  (delete_interface node nic.name ∷ []) _
                  (Traces-bind _ _ _ [] (Traces-attempt api (delete_interface node nic.name))
                    (λ failed.
                      Traces-wrapped "failed to delete network interface" _ _
                        (Traces-fail_if failed)))
                  (delete_stale-Traces node existing wanted nics))
          | inr e ↦ rw (delete_stale, e) (delete_stale-Traces node existing wanted nics)
        ]

    modify_if-Traces :
        (node : String) (o : Option GenericPropsModify)
        → Traces
            (modify_if text api lin node o)
            (elim o [ none ↦ [] | some m ↦ modify_node node m.override_props m.delete_props ∷ [] ])
    modify_if-Traces node none = Traces-pure tt
    modify_if-Traces node (some m) =
        Traces-bind _ _ _ [] (Traces-attempt api (modify_node node m.override_props m.delete_props))
          Traces-fail_if

    update_existing-Traces :
        (wanted : WantedNode) (existing : NodeInfo)
        → Traces
            (update_existing text api lin wanted (existing, annotated text wanted))
            (change_calls wanted existing)
    update_existing-Traces wanted existing =
        subst
          (λ ds.
            Traces (update_existing text api lin wanted (existing, annotated text wanted))
              (modification wanted existing ++ (needed existing wanted.net_interfaces ++ ds)))
          (append-nil (deletions wanted existing))
          (Traces-then _ _ (modification wanted existing) _ (modify_if-Traces wanted.name _) (
            Traces-then _ _ (needed existing wanted.net_interfaces) _
              (ensure_all-Traces existing wanted.net_interfaces)
              (Traces-then _ _ (deletions wanted existing) []
                (delete_stale-Traces wanted.name existing wanted.net_interfaces
                  existing.net_interfaces)
                (Traces-pure existing))))

    pub found :
        (wanted : WantedNode) (existing : NodeInfo) (log : Log)
        → lin.node wanted.name log ≡ ok existing
        → create_or_update_node text api lin wanted log
          ≡ update_existing text api lin wanted
              (existing, annotated text wanted)
              (log ++ get_node wanted.name ∷ [])
    unfolding create_or_update_node
    found wanted existing log e = rw (create_or_update_node, e) refl

    -- Where LINSTOR has the node and no call fails, the node is brought in line by exactly these calls: one
    -- change of its properties where they differ, then for each wanted interface in turn its creation where
    -- the node has none of the name, or its change where the first of the name differs, then the deletion of
    -- every interface that the operator manages and does not want.
    pub create_or_update_node-IsDoneWith :
        (wanted : WantedNode) (existing : NodeInfo) (log : Log)
        → lin.node wanted.name log ≡ ok existing
        → IsDoneWith
            (create_or_update_node text api lin wanted log)
            (log ++ get_node wanted.name ∷ change_calls wanted existing)
    create_or_update_node-IsDoneWith wanted existing log e =
        let asked = get_node wanted.name ∷ [] in
        let calls = change_calls wanted existing in
        subst (λ p. IsDoneWith p (log ++ (asked ++ calls))) (sym (found wanted existing log e))
          (subst
            (IsDoneWith (
              update_existing text api lin wanted (existing, annotated text wanted) (log ++ asked)))
            (append_assoc log asked calls)
            ((update_existing-Traces wanted existing).at (log ++ asked)))
