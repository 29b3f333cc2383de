-- ===== src/LinstorHelper/Stale.antt =====
-- Which network interfaces `CreateOrUpdateNode` of pkg/linstorhelper/client.go deletes, and that it
-- leaves nodes alone otherwise.
use piraeus_operator.Base.{
  String, true, false, List, [], ◌∷◌, ◌++◌, Option, none, some, ◌≡◌, refl, subst, ◌==◌, contains,
  Bool-cases, inl, inr, arith, sym, Dict,
}
use piraeus_operator.Cluster.{
  lost_node, delete_node, restore_node, evacuate, update_satellite, Call, NodeInfo, NetInterface,
  get_node, delete_interface,
}
use piraeus_operator.Cluster.Effect.{Api, Log, ok, Result, err}
use piraeus_operator.Cluster.Calls.{
  Grows, Grows-trans, Calls, calls_rules, Calls-then, Calls-pure, Calls-wrapped, Calls-bind,
  Calls-imp,
}
use piraeus_operator.Cluster.Linstor.{LinstorApi}
use piraeus_operator.LinstorHelper.Properties.{GenericPropsModify}
use piraeus_operator.LinstorHelper.Nodes.{
  NodeText, WantedNode, names_of, managed_interfaces, is_stale_interface, annotated,
  ensure_wanted_interface, ensure_all, delete_nic, delete_stale, modify_if, update_existing,
  create_or_update_node, find_or_create, existing_or_new,
}
use piraeus_operator.LinstorHelper.Interfaces.{found}

module _ (text : NodeText) where
  module _ (api : Api) (lin : LinstorApi) where
    -- An interface is deleted only on this node, if the operator manages it and does not want it. No node
    -- is evacuated, restored or removed, and no satellite changed.
    abbrev pub IsStaleOnly : WantedNode → NodeInfo → Call → Type 0
    IsStaleOnly wanted existing (delete_interface n nic) =
        (n ≡ wanted.name)
        × (contains (managed_interfaces text existing.props) nic ≡ true)
        × (contains (names_of wanted.net_interfaces) nic ≡ false)
    IsStaleOnly wanted existing (lost_node n) = ⊥
    IsStaleOnly wanted existing (delete_node n) = ⊥
    IsStaleOnly wanted existing (restore_node n) = ⊥
    IsStaleOnly wanted existing (evacuate n) = ⊥
    IsStaleOnly wanted existing (update_satellite n l) = ⊥
    IsStaleOnly wanted existing _ = Unit

    module _ (wanted : WantedNode) (existing : NodeInfo) where
      ensure-Calls :
          (olds : List NetInterface) (nic : NetInterface)
          → Calls
              (IsStaleOnly wanted existing)
              (ensure_wanted_interface text api lin existing.name olds nic)
      unfolding ensure_wanted_interface
      ensure-Calls [] nic = search (calls_rules, tt)
      ensure-Calls (old ∷ olds) nic = elim (Bool-cases (old.name == nic.name)) [
        | inl e ↦ rw (ensure_wanted_interface, e) (search (calls_rules, tt))
        | inr e ↦ rw (ensure_wanted_interface, e) (ensure-Calls olds nic)
      ]

      ensure_all-Calls :
          (nics : List NetInterface)
          → Calls (IsStaleOnly wanted existing) (ensure_all text api lin existing nics)
      unfolding ensure_all
      ensure_all-Calls [] = search calls_rules
      ensure_all-Calls (nic ∷ nics) =
          Calls-then _ (ensure_all text api lin existing nics)
            (Calls-wrapped "failed to update network interface" _
              (ensure-Calls existing.net_interfaces nic))
            (ensure_all-Calls nics)

      stale :
          (nic : NetInterface)
          → is_stale_interface text existing wanted.net_interfaces nic ≡ true
          → IsStaleOnly wanted existing (delete_interface wanted.name nic.name)
      stale nic e = (refl, ground arith, ground arith)

      delete_stale-Calls :
          (nics : List NetInterface)
          → Calls
              (IsStaleOnly wanted existing)
              (delete_stale text api lin wanted.name existing wanted.net_interfaces nics)
      unfolding delete_stale
      delete_stale-Calls [] = search calls_rules
      delete_stale-Calls (nic ∷ nics) =
          elim (Bool-cases (is_stale_interface text existing wanted.net_interfaces nic)) [
            | inl e ↦
                let allowed = stale nic e in
                rw (delete_stale, e)
                  (Calls-then (delete_nic text api lin wanted.name nic)
                    (delete_stale text api lin wanted.name existing wanted.net_interfaces nics)
                    (search (calls_rules, allowed)) (delete_stale-Calls nics))
            | inr e ↦ rw (delete_stale, e) (delete_stale-Calls nics)
          ]

      modify_if-Calls :
          (o : Option GenericPropsModify)
          → Calls (IsStaleOnly wanted existing) (modify_if text api lin wanted.name o)
      modify_if-Calls none = search calls_rules
      modify_if-Calls (some m) = search (calls_rules, tt)

      update-Calls :
          (props : Dict String)
          → Calls
              (IsStaleOnly wanted existing)
              (update_existing text api lin wanted (existing, props))
      update-Calls props = Calls-then _ _ (modify_if-Calls _) (
          Calls-then _ _ (ensure_all-Calls wanted.net_interfaces)
            (Calls-then _ _ (delete_stale-Calls existing.net_interfaces) (Calls-pure existing)))

      -- Where LINSTOR has the node, an interface is deleted only on that node, and only if the operator's
      -- own record on the node names it, or it has a default name and no such record can be read, and it is
      -- not wanted. No node is evacuated, restored or removed, and no satellite changed. This holds of every
      -- outcome.
      pub create_or_update_node-IsStaleOnly :
          (log : Log)
          → lin.node wanted.name log ≡ ok existing
          → Grows
              (IsStaleOnly wanted existing)
              log
              (create_or_update_node text api lin wanted log).1
      create_or_update_node-IsStaleOnly log e =
          let next = log ++ get_node wanted.name ∷ [] in
          subst (λ p. Grows (IsStaleOnly wanted existing) log p.1)
            (sym (found text api lin wanted existing log e))
            (Grows-trans log next _ (get_node wanted.name ∷ [], refl, (tt, tt))
              ((update-Calls (annotated text wanted)).at next))

    -- No node is evacuated or restored, lost or deleted, and no satellite changed.
    abbrev pub IsTame : Call → Type 0
    IsTame (lost_node n) = ⊥
    IsTame (delete_node n) = ⊥
    IsTame (restore_node n) = ⊥
    IsTame (evacuate n) = ⊥
    IsTame (update_satellite n l) = ⊥
    IsTame _ = Unit

    IsTame-of_IsStaleOnly :
        (wanted : WantedNode) (existing : NodeInfo) (c : Call)
        → IsStaleOnly wanted existing c
        → IsTame c
    IsTame-of_IsStaleOnly wanted existing (lost_node n) h = h
    IsTame-of_IsStaleOnly wanted existing (delete_node n) h = h
    IsTame-of_IsStaleOnly wanted existing (restore_node n) h = h
    IsTame-of_IsStaleOnly wanted existing (evacuate n) h = h
    IsTame-of_IsStaleOnly wanted existing (update_satellite n l) h = h
    IsTame-of_IsStaleOnly wanted existing _ h = tt

    existing_or_new-Calls :
        (wanted : WantedNode) (r : Result NodeInfo)
        → Calls IsTame (existing_or_new text api lin wanted r)
    existing_or_new-Calls wanted (ok existing) = search calls_rules
    existing_or_new-Calls wanted (err e) = search (calls_rules, tt) depth 12

    find_or_create-Calls : (wanted : WantedNode) → Calls IsTame (find_or_create text api lin wanted)
    find_or_create-Calls wanted = record {
      at = λ log.
          let next = log ++ get_node wanted.name ∷ [] in
          Grows-trans log next _ (get_node wanted.name ∷ [], refl, (tt, tt))
            ((existing_or_new-Calls wanted (lin.node wanted.name log)).at next);
    }

    pub create_or_update_node-IsTame :
        (wanted : WantedNode) → Calls IsTame (create_or_update_node text api lin wanted)
    unfolding create_or_update_node
    create_or_update_node-IsTame wanted =
        Calls-bind (find_or_create text api lin wanted) (update_existing text api lin wanted)
          (find_or_create-Calls wanted)
          (λ e. Calls-imp _ (IsTame-of_IsStaleOnly wanted e.0) (update-Calls wanted e.0 e.1))
