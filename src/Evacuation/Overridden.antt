-- ===== src/Evacuation/Overridden.antt =====
-- A volume with the explicit action AffinityOverride keeps it through a round of
-- `preparePVsforEvacuation` of pkg/evacuation/evacuation.go, and the round leaves it in the list of
-- volumes that are not ready.
use piraeus_operator.Base.{
  String, Bool, false, List, [], ◌∷◌, ◌++◌, Option, none, some, ◌≡◌, refl, sym, ◌∙◌, ap, arith, inl,
  inr, or_else, Bool-cases, Option-cases, is_empty, is_some, get, put, get-put, ◌==◌, eq_iff,
  if◌then◌else◌,
}
use piraeus_operator.Cluster.{PersistentVolume, ApiError}
use piraeus_operator.Cluster.Effect.{Api}
use piraeus_operator.Cluster.Answers.{
  Answers, Answers-pure, Answers-imp, Answers-bind, Answers-after,
}
use piraeus_operator.Evacuation.Volumes.{
  wait_annotation, override_annotation, action_annotation, action_affinity_override, action_delete,
  evacuation_action_for_pv,
}
use piraeus_operator.Evacuation.Prepare.{
  Listing, Progress, mark_waiting, lift_affinity, finish_volume, delete_both, take_action,
  prepare_volume, prepare_one, action_for, update_if,
}

-- `xs ++ x ∷ []` is not empty.
append_not_empty : (xs : List String) (x : String) → is_empty (xs ++ x ∷ []) ≡ false
append_not_empty [] x = refl
append_not_empty (y ∷ xs) x = refl

none_there_twice : (l : List String) (u : PersistentVolume) → none ≡ some u → is_empty l ≡ false
none_there_twice l u h = ground (arith, h)

module _ (api : Api) (node : String)
    (wait_apart : (wait_annotation node == action_annotation api.names) ≡ false)
    (override_apart : (override_annotation api.names node == action_annotation api.names)
      ≡ false) where
  -- The volume's action is chosen explicitly.
  abbrev pub IsOverridden : PersistentVolume → Type 0
  IsOverridden pv = get pv.annotations (action_annotation api.names) ≡ some action_affinity_override

  abbrev then_action : Option PersistentVolume → Option (Option String)
  then_action none = none
  then_action (some v) = some (get v.annotations (action_annotation api.names))

  kept_by_put :
      (pv : PersistentVolume) (k v : String)
      → (k == action_annotation api.names) ≡ false
      → IsOverridden pv
      → get (put pv.annotations k v) (action_annotation api.names) ≡ some action_affinity_override
  kept_by_put pv k v apart h = get-put pv.annotations k v (action_annotation api.names) ∙ rw apart h

  IsOverridden-of : (u v : PersistentVolume) → some u ≡ some v → IsOverridden u → IsOverridden v
  IsOverridden-of u v e h = ap (λ o. or_else none (then_action o)) (sym e) ∙ h

  mark_waiting-Answers :
      (known : Listing) (pv : PersistentVolume)
      → Answers
          (λ (w : PersistentVolume × Bool). IsOverridden pv → IsOverridden w.0)
          (mark_waiting api node known pv)
  unfolding mark_waiting
  mark_waiting-Answers known pv =
      elim (Bool-cases (is_some (get pv.annotations (wait_annotation node)))) [
        | inl e ↦ rw e (record { at = λ log. λ h. h })
        | inr e ↦ rw e (record {
          at = λ log.
              kept_by_put pv (wait_annotation node)
                (if is_some (get known.attachments pv.name) then "true" else "false") wait_apart;
        })
      ]

  lift_affinity-Answers :
      (pv : PersistentVolume) (b : Bool)
      → Answers
          (λ (w : PersistentVolume × Bool). IsOverridden pv → IsOverridden w.0)
          (lift_affinity api node pv b)
  unfolding lift_affinity
  lift_affinity-Answers pv b =
      elim (Bool-cases (is_some (get pv.annotations (override_annotation api.names node)))) [
        | inl e ↦ rw e (record { at = λ log. λ h. h })
        | inr e ↦ rw e (record {
          at = λ log. kept_by_put pv (override_annotation api.names node) "true" override_apart;
        })
      ]

  -- The volume of a handle is overridden.
  abbrev pub IsHeld : Progress → String → Type 0
  IsHeld p handle = (pv : PersistentVolume) × (get p.pvs handle ≡ some pv) × IsOverridden pv

  -- The volumes after a round: another volume at the handle, overridden if the first was.
  abbrev IsNext : Progress → String → PersistentVolume → Progress → Type 0
  IsNext p handle pv q =
      (v : PersistentVolume) × (q.pvs ≡ put p.pvs handle v) × (IsOverridden pv → IsOverridden v)

  finish_volume-Answers :
      (p : Progress) (handle : String) (l : List String) (errs : List ApiError)
      (w : PersistentVolume × Bool)
      → Answers
          (λ q. (q.pvs ≡ put p.pvs handle w.0) × (q.unschedulable ≡ l))
          (finish_volume api node p handle l errs w)
  unfolding finish_volume
  finish_volume-Answers p handle l errs (pv, b) =
      Answers-after (update_if api node b pv) _ (λ failed. Answers-pure _ (refl, refl))

  abbrev IsRound : String → Progress → String → PersistentVolume → Progress → Type 0
  IsRound action p handle pv q =
      IsNext p handle pv q
      × (is_empty p.unschedulable ≡ false → is_empty q.unschedulable ≡ false)
      × (action ≡ action_affinity_override → is_empty q.unschedulable ≡ false)

  finished :
      (action : String) (p : Progress) (handle : String) (pv : PersistentVolume) (l : List String)
      (errs : List ApiError) (w : PersistentVolume × Bool)
      → (IsOverridden pv → IsOverridden w.0)
      → (is_empty p.unschedulable ≡ false → is_empty l ≡ false)
      → (action ≡ action_affinity_override → is_empty l ≡ false)
      → Answers (IsRound action p handle pv) (finish_volume api node p handle l errs w)
  finished action p handle pv l errs w k grows starts =
      Answers-imp (finish_volume api node p handle l errs w)
        (λ q (same_pvs, same_list). (
          (w.0, same_pvs, k),
          (λ h. ap is_empty same_list ∙ grows h),
          (λ h. ap is_empty same_list ∙ starts h),
        ))
        (finish_volume-Answers p handle l errs w)

  take_action-Answers :
      (action : String) (p : Progress) (handle : String) (w : PersistentVolume × Bool)
      → Answers (IsRound action p handle w.0) (take_action api node action p handle w)
  unfolding take_action
  take_action-Answers action p handle (pv, b) =
      elim (Bool-cases (action == action_affinity_override)) [
        | inl e ↦ rw e (
            Answers-bind (lift_affinity api node pv b)
              (finish_volume api node p handle (p.unschedulable ++ pv.name ∷ []) p.errs)
              (lift_affinity-Answers pv b)
              (λ w k.
                finished action p handle pv (p.unschedulable ++ pv.name ∷ []) p.errs w k
                  (λ _. append_not_empty p.unschedulable pv.name)
                  (λ _. append_not_empty p.unschedulable pv.name)))
        | inr e ↦
            let other : action ≡ action_affinity_override → is_empty p.unschedulable ≡ false =
              λ same. ground (arith, eq_iff action action_affinity_override) in
            elim (Bool-cases (action == action_delete)) [
              | inl e' ↦
                  rw (e, e')
                    (Answers-after (delete_both api node pv p.errs)
                      (λ errs. finish_volume api node p handle p.unschedulable errs (pv, b))
                      (λ errs.
                        finished action p handle pv p.unschedulable errs (pv, b) (λ h. h) (λ h. h)
                          other))
              | inr e' ↦
                  rw (e, e')
                    (finished action p handle pv p.unschedulable p.errs (pv, b) (λ h. h) (λ h. h)
                      other)
            ]
      ]

  action_for-overridden :
      (known : Listing) (pv : PersistentVolume)
      → IsOverridden pv
      → action_for api node known pv ≡ action_affinity_override
  unfolding evacuation_action_for_pv
  action_for-overridden known pv h = rw (h, action_for, evacuation_action_for_pv) refl

  prepare_volume-Answers :
      (known : Listing) (p : Progress) (handle : String) (pv : PersistentVolume)
      → Answers
          (λ q.
            IsNext p handle pv q
            × (is_empty p.unschedulable ≡ false → is_empty q.unschedulable ≡ false)
            × (IsOverridden pv → is_empty q.unschedulable ≡ false))
          (prepare_volume api node known p handle pv)
  unfolding prepare_volume
  prepare_volume-Answers known p handle pv =
      Answers-bind (mark_waiting api node known pv) _ (mark_waiting-Answers known pv) (λ w k.
        Answers-imp (take_action api node (action_for api node known w.0) p handle w)
          (λ q ((v, same_pvs, kept), grows, starts). (
            (v, same_pvs, λ h. kept (k h)),
            grows,
            λ h. starts (action_for-overridden known w.0 (k h)),
          ))
          (take_action-Answers (action_for api node known w.0) p handle w))

  -- A volume that is overridden stays so, in a round for any handle.
  IsHeld-after :
      (p q : Progress) (held handle : String) (pv : PersistentVolume)
      → get p.pvs handle ≡ some pv
      → IsNext p handle pv q
      → IsHeld p held
      → IsHeld q held
  IsHeld-after p q held handle pv found (v, same_pvs, kept) (u, e, h) =
      elim (Bool-cases (handle == held)) [
        | inl same ↦
            let same_handle : handle ≡ held = ground (arith, eq_iff handle held) in
            let same_volume : some u ≡ some pv = sym e ∙ ap (get p.pvs) (sym same_handle) ∙ found in
            (
              v,
              ap (λ m. get m held) same_pvs ∙ get-put p.pvs handle v held ∙ rw same refl,
              kept (IsOverridden-of u pv same_volume h),
            )
        | inr apart ↦
            (u, ap (λ m. get m held) same_pvs ∙ get-put p.pvs handle v held ∙ rw apart e, h)
      ]

  pub prepare_one-Answers :
      (known : Listing) (p : Progress) (handle held : String)
      → IsHeld p held
      → Answers
          (λ q.
            IsHeld q held
            × (is_empty p.unschedulable ≡ false → is_empty q.unschedulable ≡ false)
            × (handle ≡ held → is_empty q.unschedulable ≡ false))
          (prepare_one api node known p handle)
  prepare_one-Answers known p handle held (u, e, h) = elim (Option-cases (get p.pvs handle)) [
    | inl none_there ↦
        rw (none_there, prepare_one)
          (Answers-pure p (
            (u, e, h),
            (λ k. k),
            (λ same. none_there_twice p.unschedulable u (sym none_there ∙ ap (get p.pvs) same ∙ e)),
          ))
    | inr (pv, found) ↦
        rw (found, prepare_one)
          (Answers-imp (prepare_volume api node known p handle pv)
            (λ q (next, grows, starts). (
              IsHeld-after p q held handle pv found next (u, e, h),
              grows,
              (λ same. starts (IsOverridden-of u pv (sym e ∙ ap (get p.pvs) (sym same) ∙ found) h)),
            ))
            (prepare_volume-Answers known p handle pv))
  ]
