-- ===== src/LinstorHelper/Properties/Converges.antt =====
-- Applying the change of pkg/linstorhelper/properties.go reaches the wanted properties, and the next
-- call finds nothing to do.
use piraeus_operator.Base.{
  String, Bool, true, false, [], ◌∷◌, ◌++◌, Option, none, some, ◌≡◌, ◌≢◌, ◌⊎◌, ◌∙◌, not, ◌&&◌, ◌||◌,
  ◌==◌, eq_iff, eq_refl, Option-cases, inl, inr, arith, if◌then◌else◌, or_else, is_some, is_empty,
  select, get, contains, HasDistinctKeys, contains-append,
}
use piraeus_operator.LinstorHelper.Properties.{
  Json, Props, GenericPropsModify, last_apply_property, own_props, holds,
  make_properties_modification,
}
use piraeus_operator.LinstorHelper.Properties.Lookup.{
  get-own_props, contains-select, get-select_pair,
}
use piraeus_operator.LinstorHelper.Properties.Recorded.{
  get_empty, update, update-HasDistinctKeys, get-update, holds→get, nothing_to_set, all_set,
  is_empty-update, applied_names, wanted,
}

-- How LINSTOR changes the properties of an object: names to delete go, others are set, the rest
-- stays. Nothing is assumed of a name that a change both deletes and sets.
pub record PropertyStore : Type 0 where
  pub modify : Props → GenericPropsModify → Props
  pub deletes :
      (p : Props) (m : GenericPropsModify) (k : String)
      → contains m.delete_props k ≡ true
      → get m.override_props k ≡ none
      → get (modify p m) k ≡ none
  pub sets :
      (p : Props) (m : GenericPropsModify) (k v : String)
      → contains m.delete_props k ≡ false
      → get m.override_props k ≡ some v
      → get (modify p m) k ≡ some v
  pub keeps :
      (p : Props) (m : GenericPropsModify) (k : String)
      → contains m.delete_props k ≡ false
      → get m.override_props k ≡ none
      → get (modify p m) k ≡ get p k

module _ (json : Json) (store : PropertyStore) where
  -- The properties after the change, if there is one.
  abbrev pub after : Props → Option GenericPropsModify → Props
  after cur none = cur
  after cur (some m) = store.modify cur m

  abbrev pub reconciled : Props → Props → Props
  reconciled cur expected = after cur (make_properties_modification json cur expected)

  change : Props → Props → GenericPropsModify
  change cur m = record {
    override_props = select (λ p. not (holds json cur p)) m;
    delete_props =
        (let stale =
            select (λ j. not (is_some (get m j)))
              (json.decode (or_else "" (get cur last_apply_property))) in
          if is_empty m then stale ++ last_apply_property ∷ [] else stale);
  }

  abbrev gone : Props → Props → String → Bool
  gone cur m k =
      contains (json.decode (or_else "" (get cur last_apply_property))) k
      || (is_empty m && last_apply_property == k)

  deleted :
      (cur m : Props) (k : String)
      → contains (change cur m).delete_props k ≡ (not (is_some (get m k)) && gone cur m k)
  unfolding get change
  deleted cur [] k =
      contains-append
        (select (λ j. not (is_some (get {V = String} [] j)))
          (json.decode (or_else "" (get cur last_apply_property))))
        (last_apply_property ∷ []) k
      ∙ ground (
        arith,
        contains-select (λ j. not (is_some (get {V = String} [] j)))
            (json.decode (or_else "" (get cur last_apply_property))) k,
      )
  deleted cur (p ∷ m) k = ground (
    arith,
    contains-select (λ j. not (is_some (get (p ∷ m) j)))
        (json.decode (or_else "" (get cur last_apply_property))) k,
  )

  overridden :
      (cur m : Props) (k : String)
      → HasDistinctKeys m
      → get (change cur m).override_props k ≡ (elim (get m k) [
        | none ↦ none
        | some v ↦ if not (holds json cur (k, v)) then some v else none
      ])
  unfolding change
  overridden cur m k h = get-select_pair (λ p. not (holds json cur p)) m k h

  -- What a change leaves for each name.
  get-change :
      (cur m : Props) (k : String)
      → HasDistinctKeys m
      → get (store.modify cur (change cur m)) k
        ≡ (elim (get m k) [ some v ↦ some v | none ↦ if gone cur m k then none else get cur k ])
  get-change cur m k h =
      let c = change cur m in
      elim (Option-cases (get m k)) [
        | inl missing ↦ ground (
          arith,
          missing,
          overridden cur m k h,
          deleted cur m k,
          store.deletes cur c k,
          store.keeps cur c k,
        )
        | inr (v, there) ↦ ground (
          arith,
          there,
          overridden cur m k h,
          deleted cur m k,
          store.sets cur c k v,
          store.keeps cur c k,
          holds→get json cur k v,
        )
      ]

  modification_cases :
      (cur expected : Props)
      → ((make_properties_modification json cur expected ≡ some (change cur (update json expected)))
          × ((is_empty (select (λ p. not (holds json cur p)) (update json expected)) ≡ false)
              ⊎ (or_else "" (get cur last_apply_property)
                  ≢ or_else "" (get (update json expected) last_apply_property))))
        ⊎ ((make_properties_modification json cur expected ≡ none)
            × (is_empty (select (λ p. not (holds json cur p)) (update json expected)) ≡ true)
            × (or_else "" (get cur last_apply_property)
                ≡ or_else "" (get (update json expected) last_apply_property)))
  unfolding make_properties_modification change
  modification_cases cur expected = ground (
    arith,
    eq_iff (or_else "" (get cur last_apply_property))
        (or_else "" (get (update json expected) last_apply_property)),
  )

  -- Without its own entry, a name is wanted exactly if the caller wants it.
  get-update_ne :
      (m : Props) (k : String) → k ≢ last_apply_property → get (update json m) k ≡ get m k
  get-update_ne m k ne = ground (
    arith,
    get-update json m k,
    get-own_props m k,
    eq_iff k last_apply_property,
    eq_iff last_apply_property k,
    get_empty (own_props m) k,
  )

  unchanged-wanted :
      (cur expected : Props) (k : String)
      → k ≢ last_apply_property
      → is_empty (select (λ p. not (holds json cur p)) (update json expected)) ≡ true
      → or_else "" (get cur last_apply_property)
        ≡ or_else "" (get (update json expected) last_apply_property)
      → get cur k ≡ wanted json cur expected k
  unchanged-wanted cur expected k ne set same = elim (Option-cases (get expected k)) [
    | inl missing ↦ ground (
      arith,
      same,
      missing,
      applied_names json expected k,
      get-own_props expected k,
      eq_iff k last_apply_property,
    )
    | inr (v, there) ↦ ground (
      arith,
      there,
      get-update_ne expected k ne,
      nothing_to_set json cur (update json expected) k v set,
    )
  ]

  -- After the change, if there is one, every name but the operator's own holds what is wanted: the
  -- expected value, or nothing if it was applied before and is no longer expected, or else its old
  -- value.
  pub make_properties_modification-wanted :
      (cur expected : Props) (k : String)
      → HasDistinctKeys expected
      → k ≢ last_apply_property
      → get (reconciled cur expected) k ≡ wanted json cur expected k
  make_properties_modification-wanted cur expected k h ne = elim (modification_cases cur expected) [
    | inl (e, why) ↦ rw e (
        get-change cur (update json expected) k (update-HasDistinctKeys json expected h)
        ∙ ground (
          arith,
          get-update_ne expected k ne,
          eq_iff last_apply_property k,
          eq_iff k last_apply_property,
        ))
    | inr (e, set, same) ↦ rw e (unchanged-wanted cur expected k ne set same)
  ]

  -- Where nothing is expected, the entry is gone or empty.
  entry-reconciled :
      (cur expected : Props)
      → HasDistinctKeys expected
      → or_else "" (get (reconciled cur expected) last_apply_property)
        ≡ or_else "" (get (update json expected) last_apply_property)
  entry-reconciled cur expected h =
      let h' = update-HasDistinctKeys json expected h in
      elim (modification_cases cur expected) [
        | inl (e, why) ↦ rw e (
            ground (
              arith,
              get-change cur (update json expected) last_apply_property h',
              get-update json expected last_apply_property,
              is_empty-update json expected,
              eq_refl last_apply_property,
            ))
        | inr (e, set, same) ↦ rw e same
      ]

  -- After the change, if there is one, the names that the operator's own entry lists are exactly the
  -- expected names, its own left out.
  pub last-reconciled :
      (cur expected : Props) (k : String)
      → HasDistinctKeys expected
      → contains (json.decode (or_else "" (get (reconciled cur expected) last_apply_property))) k
        ≡ (not (k == last_apply_property) && is_some (get expected k))
  last-reconciled cur expected k h =
      rw (entry-reconciled cur expected h)
        (applied_names json expected k ∙ ground (arith, get-own_props expected k))

  reconciled-holds :
      (cur expected : Props) (k v : String)
      → HasDistinctKeys expected
      → get (update json expected) k ≡ some v
      → get (reconciled cur expected) k ≡ some v
  reconciled-holds cur expected k v h there = elim (modification_cases cur expected) [
    | inl (e, why) ↦ rw e (
        ground (
          arith,
          there,
          get-change cur (update json expected) k (update-HasDistinctKeys json expected h),
        ))
    | inr (e, set, same) ↦ rw e (nothing_to_set json cur (update json expected) k v set there)
  ]

  -- After the change, the next call with the same wanted properties finds nothing to change.
  pub make_properties_modification_idem :
      (cur expected : Props)
      → HasDistinctKeys expected
      → make_properties_modification json (reconciled cur expected) expected ≡ none
  make_properties_modification_idem cur expected h = ground (
    arith,
    modification_cases (reconciled cur expected) expected,
    entry-reconciled cur expected h,
    all_set json (reconciled cur expected) (update json expected)
        (update-HasDistinctKeys json expected h)
        (λ k v there. reconciled-holds cur expected k v h there),
  )
