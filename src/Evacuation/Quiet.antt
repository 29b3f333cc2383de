-- ===== src/Evacuation/Quiet.antt =====
-- Which steps of pkg/evacuation/evacuation.go leave the node, its machine and the volumes alone.
use piraeus_operator.Base.{String, Bool, true, false, List, [], ◌∷◌, Option-cases, inl, inr, get}
use piraeus_operator.Cluster.{
  Call, evacuate, update_machine, lost_node, delete_node, restore_node, update_satellite,
  PersistentVolume, ApiError,
}
use piraeus_operator.Cluster.Effect.{Api}
use piraeus_operator.Cluster.Calls.{Calls, Calls-pure, Calls-bind, calls_rules}
use piraeus_operator.Evacuation.Prepare.{
  Listing, Progress, diskful_resources_on_node, mark_waiting, lift_affinity, delete_bound_claim,
  delete_pv, update_if, finish_volume, delete_both, take_action, prepare_volume, prepare_one,
  prepare_all, prepare_pvs_for_evacuation,
}
use piraeus_operator.Evacuation.Reattach.{wait_for_configured_satellites}

-- Neither does LINSTOR evacuate or remove a node, nor is a machine or a satellite changed.
abbrev pub IsQuiet : Call → Type 0
IsQuiet (evacuate n) = ⊥
IsQuiet (update_machine m) = ⊥
IsQuiet (lost_node n) = ⊥
IsQuiet (delete_node n) = ⊥
IsQuiet (restore_node n) = ⊥
IsQuiet (update_satellite n l) = ⊥
IsQuiet _ = Unit

module _ (api : Api) (node : String) where
  mark_waiting-Calls :
      (known : Listing) (pv : PersistentVolume) → Calls IsQuiet (mark_waiting api node known pv)
  unfolding mark_waiting
  mark_waiting-Calls known pv = search (calls_rules, tt)

  lift_affinity-Calls :
      (pv : PersistentVolume) (b : Bool) → Calls IsQuiet (lift_affinity api node pv b)
  unfolding lift_affinity
  lift_affinity-Calls pv b = search (calls_rules, tt)

  update_if-Calls : (b : Bool) (pv : PersistentVolume) → Calls IsQuiet (update_if api node b pv)
  update_if-Calls true pv = search (calls_rules, tt)
  update_if-Calls false pv = search calls_rules

  delete_pv-Calls : (pv : PersistentVolume) → Calls IsQuiet (delete_pv api node pv)
  unfolding delete_pv
  delete_pv-Calls pv = search (calls_rules, tt)

  delete_bound_claim-Calls :
      (pv : PersistentVolume) → Calls IsQuiet (delete_bound_claim api node pv)
  unfolding delete_bound_claim
  delete_bound_claim-Calls pv = elim (Option-cases pv.claim_ref) [
    | inl e ↦ rw e (search calls_rules)
    | inr (ref, e) ↦ rw e (search (calls_rules, tt))
  ]

  ruleset volume_rules = (
    calls_rules, mark_waiting-Calls, lift_affinity-Calls, update_if-Calls, delete_pv-Calls,
    delete_bound_claim-Calls,
  )

  finish_volume-Calls :
      (p : Progress) (handle : String) (l : List String) (errs : List ApiError)
      (w : PersistentVolume × Bool)
      → Calls IsQuiet (finish_volume api node p handle l errs w)
  unfolding finish_volume
  finish_volume-Calls p handle l errs (pv, b) = search volume_rules

  delete_both-Calls :
      (pv : PersistentVolume) (errs : List ApiError) → Calls IsQuiet (delete_both api node pv errs)
  unfolding delete_both
  delete_both-Calls pv errs = search volume_rules

  take_action-Calls :
      (action : String) (p : Progress) (handle : String) (w : PersistentVolume × Bool)
      → Calls IsQuiet (take_action api node action p handle w)
  unfolding take_action
  take_action-Calls action p handle (pv, b) =
      search (volume_rules, finish_volume-Calls, delete_both-Calls)

  prepare_volume-Calls :
      (known : Listing) (p : Progress) (handle : String) (pv : PersistentVolume)
      → Calls IsQuiet (prepare_volume api node known p handle pv)
  unfolding prepare_volume
  prepare_volume-Calls known p handle pv = search (volume_rules, take_action-Calls)

  prepare_one-Calls :
      (known : Listing) (p : Progress) (handle : String)
      → Calls IsQuiet (prepare_one api node known p handle)
  prepare_one-Calls known p handle = elim (Option-cases (get p.pvs handle)) [
    | inl e ↦ rw (e, prepare_one) (Calls-pure p)
    | inr (pv, e) ↦ rw (e, prepare_one) (prepare_volume-Calls known p handle pv)
  ]

  prepare_all-Calls :
      (known : Listing) (p : Progress) (handles : List String)
      → Calls IsQuiet (prepare_all api node known p handles)
  unfolding prepare_all
  prepare_all-Calls known p [] = Calls-pure p
  prepare_all-Calls known p (handle ∷ rest) =
      Calls-bind (prepare_one api node known p handle) (λ p'. prepare_all api node known p' rest)
        (prepare_one-Calls known p handle) (λ p'. prepare_all-Calls known p' rest)

  diskful-Calls : Calls IsQuiet (diskful_resources_on_node api node)
  unfolding diskful_resources_on_node
  diskful-Calls = search (calls_rules, tt)

  -- Preparing volumes neither evacuates a node nor touches a machine.
  pub prepare_pvs_for_evacuation-Calls : Calls IsQuiet (prepare_pvs_for_evacuation api node)
  unfolding prepare_pvs_for_evacuation
  prepare_pvs_for_evacuation-Calls =
      search (calls_rules, diskful-Calls, prepare_all-Calls, tt) depth 16

  pub wait_for_configured_satellites-Calls : Calls IsQuiet (wait_for_configured_satellites api node)
  unfolding wait_for_configured_satellites
  wait_for_configured_satellites-Calls = search (calls_rules, tt)
