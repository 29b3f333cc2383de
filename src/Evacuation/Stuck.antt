-- ===== src/Evacuation/Stuck.antt =====
-- Volumes with the explicit action AffinityOverride in `preparePVsforEvacuation` of
-- pkg/evacuation/evacuation.go.
use piraeus_operator.Base.{
  String, Bool, true, false, List, [], ◌∷◌, none, some, ◌≡◌, refl, sym, ◌∙◌, ap, subst, arith, inl,
  inr, map, select, not, contains, is_empty, In, get, ◌==◌,
}
use piraeus_operator.Evacuation.Gate.{HasPassed}
use piraeus_operator.Cluster.{
  Resource, list_attachments, list_nodes, list_volumes, list_groups, list_definitions,
  PersistentVolume,
}
use piraeus_operator.Cluster.Effect.{Api, Log, Result, ok, err, ask, fail_joined}
use piraeus_operator.Cluster.Answers.{
  Answers, Ends, Answers-pure, Answers-bind, Answers-after, Answers-then,
}
use piraeus_operator.Evacuation.Volumes.{
  wait_annotation, override_annotation, action_annotation, pvs_by_linstor_resource,
}
use piraeus_operator.Evacuation.Prepare.{
  Listing, Progress, listing_of, start_of, report_progress, diskful_resources_on_node,
  prepare_pvs_for_evacuation, prepare_one, prepare_all,
}
use piraeus_operator.Evacuation.Overridden.{IsOverridden, IsHeld, prepare_one-Answers}

module _ (api : Api) (node : String)
    (wait_apart : (wait_annotation node == action_annotation api.names) ≡ false)
    (override_apart : (override_annotation api.names node == action_annotation api.names)
      ≡ false) where
  prepare_all_started :
      (known : Listing) (p : Progress) (handles : List String) (held : String)
      → IsHeld api node wait_apart override_apart p held
      → is_empty p.unschedulable ≡ false
      → Answers (λ q. is_empty q.unschedulable ≡ false) (prepare_all api node known p handles)
  unfolding prepare_all
  prepare_all_started known p [] held k h = Answers-pure p h
  prepare_all_started known p (handle ∷ rest) held k h =
      Answers-bind (prepare_one api node known p handle) (λ q. prepare_all api node known q rest)
        (prepare_one-Answers api node wait_apart override_apart known p handle held k)
        (λ q (k', grows, _). prepare_all_started known q rest held k' (grows h))

  prepare_all-Answers :
      (known : Listing) (p : Progress) (handles : List String) (held : String)
      → IsHeld api node wait_apart override_apart p held
      → In held handles
      → Answers (λ q. is_empty q.unschedulable ≡ false) (prepare_all api node known p handles)
  unfolding prepare_all
  prepare_all-Answers known p [] held k i = elim i [ ]
  prepare_all-Answers known p (handle ∷ rest) held k (inl same) =
      Answers-bind (prepare_one api node known p handle) (λ q. prepare_all api node known q rest)
        (prepare_one-Answers api node wait_apart override_apart known p handle held k)
        (λ q (k', _, starts). prepare_all_started known q rest held k' (starts same))
  prepare_all-Answers known p (handle ∷ rest) held k (inr i) =
      Answers-bind (prepare_one api node known p handle) (λ q. prepare_all api node known q rest)
        (prepare_one-Answers api node wait_apart override_apart known p handle held k)
        (λ q (k', _, _). prepare_all-Answers known q rest held k' i)

  abbrev diskful_names : List Resource → List String
  diskful_names ress =
      map (λ (r : Resource). r.name)
        (select (λ (r : Resource). not (contains r.flags api.names.flag_diskless)) ress)

  diskful-Answers :
      (ress : List Resource)
      → ((log : Log) → api.resources node log ≡ (ress, none))
      → Answers (λ names. names ≡ diskful_names ress) (diskful_resources_on_node api node)
  unfolding diskful_resources_on_node
  diskful-Answers ress listed = record { at = λ log. rw (listed log) refl }

  unfinished :
      (p : Progress)
      → is_empty p.unschedulable ≡ false
      → Answers (λ (r : String × Bool). r.1 ≡ false) (report_progress p)
  unfinished p h = Answers-then (fail_joined p.errs) _ (rw h (Answers-pure _ refl))

  Ends-of_ok : {A : Type 0} (r : Result A) (a : A) → r ≡ ok a → Ends (λ b. b ≡ a) r
  Ends-of_ok r a e = rw e refl

  not_passed :
      (r : Result (String × Bool)) → Ends (λ (r : String × Bool). r.1 ≡ false) r → ¬ HasPassed r
  not_passed (ok (msg, true)) h = ground (arith, h)
  not_passed (ok (msg, false)) h = λ x. x
  not_passed (err e) h = λ x. x

  prepare_pvs_for_evacuation-Answers :
      (volumes : List PersistentVolume) (ress : List Resource) (handle : String)
      (pv : PersistentVolume)
      → ((log : Log) → api.volumes log ≡ ok volumes)
      → ((log : Log) → api.resources node log ≡ (ress, none))
      → In handle (diskful_names ress)
      → get (pvs_by_linstor_resource api.names volumes) handle ≡ some pv
      → IsOverridden api node wait_apart override_apart pv
      → Answers (λ (r : String × Bool). r.1 ≡ false) (prepare_pvs_for_evacuation api node)
  unfolding prepare_pvs_for_evacuation
  prepare_pvs_for_evacuation-Answers volumes ress handle pv same_volumes same_ress i found h =
      Answers-after (ask list_attachments api.attachments) _ (λ attachments.
        Answers-after (ask list_nodes api.nodes) _ (λ nodes.
          Answers-bind (ask list_volumes api.volumes) _
            (record { at = λ log. Ends-of_ok (api.volumes log) volumes (same_volumes log) })
            (λ vs same. Answers-after (ask list_groups api.groups) _ (λ groups.
              Answers-after (ask list_definitions api.definitions) _ (λ definitions.
                Answers-bind (diskful_resources_on_node api node) _ (diskful-Answers ress same_ress)
                  (λ names same_names.
                    Answers-bind
                      (prepare_all api node (listing_of attachments nodes groups definitions)
                        (start_of api.names vs) names)
                      _
                      (prepare_all-Answers (listing_of attachments nodes groups definitions)
                        (start_of api.names vs) names handle
                        (
                          pv,
                          ap (λ l. get (pvs_by_linstor_resource api.names l) handle) same ∙ found,
                          h,
                        )
                        (subst (In handle) (sym same_names) i))
                      unfinished))))))

  -- The preparation of a node is never done while a volume with a diskful replica on it has the
  -- explicit action AffinityOverride in its annotations, however often it is repeated and even where
  -- the volume has been made reschedulable. The lists of volumes and of resources are taken to stay the
  -- same, and the three annotations to have different names.
  pub prepare_pvs_for_evacuation-HasPassed :
      (volumes : List PersistentVolume) (ress : List Resource) (handle : String)
      (pv : PersistentVolume)
      → ((log : Log) → api.volumes log ≡ ok volumes)
      → ((log : Log) → api.resources node log ≡ (ress, none))
      → In handle (diskful_names ress)
      → get (pvs_by_linstor_resource api.names volumes) handle ≡ some pv
      → IsOverridden api node wait_apart override_apart pv
      → (log : Log) → ¬ HasPassed (prepare_pvs_for_evacuation api node log).0
  prepare_pvs_for_evacuation-HasPassed volumes ress handle pv same_volumes same_ress i found h log =
      not_passed (prepare_pvs_for_evacuation api node log).0 (
        (prepare_pvs_for_evacuation-Answers volumes ress handle pv same_volumes same_ress i found
            h).at
          log)
