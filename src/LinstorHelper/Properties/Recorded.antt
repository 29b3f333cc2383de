-- ===== src/LinstorHelper/Properties/Recorded.antt =====
-- The names that the operator records beside the properties that it sets, in
-- pkg/linstorhelper/properties.go.
use piraeus_operator.Base.{
  String, Bool, true, false, List, [], ◌∷◌, Option, none, some, ◌≡◌, refl, ◌∙◌, not, ◌||◌, ◌==◌,
  eq_iff, eq_refl, Option-cases, inl, inr, arith, if◌then◌else◌, or_else, is_some, is_empty, select,
  get, keys, get-put, sort, insert, str_leb, contains, HasDistinctKeys, contains-keys,
  put-HasDistinctKeys,
}
use piraeus_operator.LinstorHelper.Properties.{
  Json, Props, last_apply_property, own_props, update_last_apply_property, holds,
}
use piraeus_operator.LinstorHelper.Properties.Lookup.{get-own_props}

pub contains-insert :
    (x : String) (l : List String) (k : String)
    → contains (insert str_leb x l) k ≡ (x == k || contains l k)
unfolding insert
contains-insert x [] k = refl
contains-insert x (y ∷ l) k = ground (arith, contains-insert x l k)

pub contains-sort : (l : List String) (k : String) → contains (sort str_leb l) k ≡ contains l k
unfolding sort
contains-sort [] k = refl
contains-sort (x ∷ l) k = ground (arith, contains-insert x (sort str_leb l) k, contains-sort l k)

contains-keys-select :
    (p : String × String → Bool) (m : Props) (k : String)
    → contains (keys m) k ≡ false
    → contains (keys (select p m)) k ≡ false
contains-keys-select p [] k h = refl
contains-keys-select p ((j, v) ∷ m) k h = ground (arith, contains-keys-select p m k)

select-HasDistinctKeys :
    (p : String × String → Bool) (m : Props) → HasDistinctKeys m → HasDistinctKeys (select p m)
select-HasDistinctKeys p [] h = tt
select-HasDistinctKeys p ((j, v) ∷ m) (fresh, h) =
    ground (arith, select-HasDistinctKeys p m h, contains-keys-select p m j)

pub get_empty : (m : Props) (k : String) → is_empty m ≡ true → get m k ≡ none
unfolding get
get_empty [] k h = refl
get_empty (p ∷ m) k h = cc

module _ (json : Json) where
  abbrev pub update : Props → Props
  update = update_last_apply_property json

  abbrev pub applied_text : Props → String
  applied_text m = json.encode (sort str_leb (keys (own_props m)))

  pub update-HasDistinctKeys : (m : Props) → HasDistinctKeys m → HasDistinctKeys (update m)
  unfolding update_last_apply_property own_props
  update-HasDistinctKeys m h =
      let own = select-HasDistinctKeys (λ p. not (p.0 == last_apply_property)) m h in
      ground
        (arith, own, put-HasDistinctKeys (own_props m) last_apply_property (applied_text m) own)

  pub get-update :
      (m : Props) (k : String)
      → get (update m) k ≡ (
          if is_empty (own_props m)
          then none
          else if last_apply_property == k
          then some (applied_text m)
          else get m k)
  unfolding update_last_apply_property get
  get-update m k = ground (
    arith,
    get-put (own_props m) last_apply_property (applied_text m) k,
    get-own_props m k,
    eq_iff k last_apply_property,
    eq_iff last_apply_property k,
  )

  pub holds→get : (cur : Props) (k v : String) → holds json cur (k, v) ≡ true → get cur k ≡ some v
  holds→get cur k v h = elim (Option-cases (get cur k)) [
    | inl missing ↦ ground arith
    | inr (w, found) ↦ ground (arith, eq_iff w v)
  ]

  pub nothing_to_set :
      (cur m : Props) (k v : String)
      → is_empty (select (λ p. not (holds json cur p)) m) ≡ true
      → get m k ≡ some v
      → get cur k ≡ some v
  unfolding get
  nothing_to_set cur [] k v h e = cc
  nothing_to_set cur ((j, w) ∷ m) k v h e = elim (Option-cases (get cur j)) [
    | inl missing ↦ ground (arith, nothing_to_set cur m k v)
    | inr (u, found) ↦ ground (arith, eq_iff j k, eq_iff u w, nothing_to_set cur m k v)
  ]

  -- Where every entry is in place, there is none to set.
  pub all_set :
      (cur m : Props)
      → HasDistinctKeys m
      → ((k v : String) → get m k ≡ some v → get cur k ≡ some v)
      → is_empty (select (λ p. not (holds json cur p)) m) ≡ true
  unfolding get
  all_set cur [] h f = refl
  all_set cur ((j, w) ∷ m) (fresh, h) f = ground (
    arith,
    f j w,
    eq_refl j,
    eq_refl w,
    all_set cur m h
        (λ k v e. f k v (ground (arith, eq_iff j k, contains-keys m j, contains-keys m k))),
  )

  pub is_empty-update : (m : Props) → is_empty (own_props m) ≡ true → is_empty (update m) ≡ true
  unfolding update_last_apply_property
  is_empty-update m h = ground arith

  -- The names that the wanted properties record are the wanted names.
  pub applied_names :
      (m : Props) (k : String)
      → contains (json.decode (or_else "" (get (update m) last_apply_property))) k
        ≡ is_some (get (own_props m) k)
  applied_names m k = rw (get-update m last_apply_property) (split (own_props m) refl)
    where
      split :
          (own : Props)
          → own ≡ own_props m
          → contains
              (json.decode (
                or_else "" (
                  if is_empty own
                  then none
                  else if last_apply_property == last_apply_property
                  then some (applied_text m)
                  else get m last_apply_property)))
              k
            ≡ is_some (get own k)
      split [] e = rw json.decode-empty (unfold get in refl)
      split (p ∷ own) e =
          rw (json.decode-encode (sort str_leb (keys (own_props m))))
            (contains-sort (keys (own_props m)) k ∙ contains-keys (own_props m) k ∙ rw (← e))

  -- What a name other than the operator's own holds in the end.
  abbrev pub wanted : Props → Props → String → Option String
  wanted cur expected k = elim (get expected k) [
    | some v ↦ some v
    | none ↦
        if contains (json.decode (or_else "" (get cur last_apply_property))) k
        then none
        else get cur k
  ]
