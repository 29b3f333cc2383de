-- ===== src/Conditions/Told.antt =====
-- The whole report of pkg/conditions/conditions.go after any calls: which types `ToConditions` lists
-- and what it says of each.
use piraeus_operator.Base.{
  ℕ, String, ◌++◌, sort, All-Shuffle, true, List, [], ◌∷◌, ◌≡◌, refl, map, arith, eq_iff, contains,
  Shuffle, done, keep, swap, then_by, IsSorted, All, sort-Shuffle, sort-IsSorted, keys,
  HasDistinctKeys, join, ◌||◌, get, str_leb, ap, some, any, ◌==◌, ◌∙◌, contains-keys-put, eq_refl,
  contains-keys, sym, sort, All-Shuffle, false,
}
use piraeus_operator.Conditions.{
  Condition, Conditions, MetaCondition, to_meta, by_type, to_conditions, new, add_success,
  add_completed, add_waiting, add_in_progress, add_error, add_unknown, get_cond, applied,
  condition_priority, available, configured,
}
use piraeus_operator.Conditions.Priority.{
  Call, success, complete, wait, progress, fail, unclear, perform, perform_all, target, level,
  worst, status_for, lines, level-perform_all, message-perform_all, perform_all-IsConsistent,
  new-IsConsistent,
}
use piraeus_operator.Conditions.Report.{
  map-Shuffle, perform_all-HasDistinctKeys, new-HasDistinctKeys, by_type-total, by_type_trans,
}

abbrev pub types : List MetaCondition → List String
types report = map (λ (m : MetaCondition). m.cond_type) report

types-IsSorted : (l : List MetaCondition) → IsSorted by_type l → IsSorted str_leb (types l)
types-IsSorted [] h = tt
types-IsSorted (m ∷ l) (low, h) = (types-All l low, types-IsSorted l h)
  where
    types-All :
        (r : List MetaCondition)
        → All (λ n. by_type m n ≡ true) r
        → All (λ k. str_leb m.cond_type k ≡ true) (map (λ (n : MetaCondition). n.cond_type) r)
    types-All [] q = tt
    types-All (n ∷ r) (p, q) = (p, types-All r q)

contains-Shuffle :
    {xs ys : List String} (k : String) → Shuffle xs ys → contains xs k ≡ contains ys k
contains-Shuffle k done = refl
contains-Shuffle k (keep a s) = ap (λ b. a == k || b) (contains-Shuffle k s)
contains-Shuffle k (swap a b xs) = ground arith
contains-Shuffle k (then_by s t) = contains-Shuffle k s ∙ contains-Shuffle k t

types-to_meta : (g : ℕ) (c : Conditions) → types (map (to_meta g) c) ≡ keys c
types-to_meta g [] = refl
types-to_meta g ((k, v) ∷ c) = ap (λ l. k ∷ l) (types-to_meta g c)

abbrev pub HasNoRepeats : List String → Type 0
HasNoRepeats [] = Unit
HasNoRepeats (k ∷ ks) = (contains ks k ≡ false) × HasNoRepeats ks

HasNoRepeats-Shuffle : {xs ys : List String} → Shuffle xs ys → HasNoRepeats xs → HasNoRepeats ys
HasNoRepeats-Shuffle done h = tt
HasNoRepeats-Shuffle (keep a s) (fresh, h) =
    (sym (contains-Shuffle a s) ∙ fresh, HasNoRepeats-Shuffle s h)
HasNoRepeats-Shuffle (swap a b xs) (fresh, (fresh', h)) =
    (ground (arith, eq_iff a b, eq_iff b a), (ground arith, h))
HasNoRepeats-Shuffle (then_by s t) h = HasNoRepeats-Shuffle t (HasNoRepeats-Shuffle s h)

types-HasNoRepeats :
    (g : ℕ) (c : Conditions) → HasDistinctKeys c → HasNoRepeats (types (map (to_meta g) c))
types-HasNoRepeats g [] h = tt
types-HasNoRepeats g ((k, v) ∷ c) (fresh, h) =
    (rw (types-to_meta g c) fresh, types-HasNoRepeats g c h)

perform-keys :
    (c : Conditions) (x : Call) (k : String)
    → contains (keys (perform c x)) k ≡ (target x == k || contains (keys c) k)
unfolding perform add_success add_completed add_waiting add_in_progress add_error add_unknown
perform-keys c (success t m) k = contains-keys-put c t _ k
perform-keys c (complete t m) k = contains-keys-put c t _ k
perform-keys c (wait t m) k = contains-keys-put c t _ k
perform-keys c (progress t m) k = contains-keys-put c t _ k
perform-keys c (fail t m) k = contains-keys-put c t _ k
perform-keys c (unclear t m) k = contains-keys-put c t _ k

perform_all-keys :
    (c : Conditions) (xs : List Call) (k : String)
    → contains (keys (perform_all c xs)) k ≡ (contains (keys c) k || any (λ x. target x == k) xs)
unfolding perform_all
perform_all-keys c [] k = ground arith
perform_all-keys c (x ∷ xs) k =
    ground (arith, perform-keys c x k, perform_all-keys (perform c x) xs k)

-- A report's entry says of its type what the calls told of it.
abbrev pub IsTold : List Call → ℕ → MetaCondition → Type 0
IsTold xs g m =
    (m.message ≡ join "\n" (lines m.cond_type xs))
    × (condition_priority m.reason ≡ worst m.cond_type xs)
    × (m.status ≡ status_for m.reason)
    × (m.observed_generation ≡ g)

told :
    (xs : List Call) (g : ℕ) (c : Conditions)
    → HasDistinctKeys c
    → ((k : String) (v : Condition) → get c k ≡ some v → IsTold xs g (to_meta g (k, v)))
    → All (IsTold xs g) (map (to_meta g) c)
unfolding get
told xs g [] h f = tt
told xs g ((k, v) ∷ c) (fresh, h) f = (
  f k v (rw (eq_refl k) refl),
  told xs g c h (λ j w e. f j w (ground (arith, eq_iff k j, contains-keys c j, e))),
)

new-empty : (k : String) → ((get_cond new k).message ≡ []) × (level new k ≡ 0)
unfolding new get
new-empty k = ground arith

entry-IsTold :
    (xs : List Call) (g : ℕ) (k : String) (v : Condition)
    → get (perform_all new xs) k ≡ some v
    → IsTold xs g (to_meta g (k, v))
entry-IsTold xs g k v e =
    let same : get_cond (perform_all new xs) k ≡ v = rw e refl in
    (
      ap (join "\n") (
          ap (λ (c : Condition). c.message) (sym same)
          ∙ message-perform_all new xs k
          ∙ ap (λ l. l ++ lines k xs) (new-empty k).0),
      ap (λ (c : Condition). condition_priority c.reason) (sym same)
          ∙ level-perform_all new xs k
          ∙ rw ((new-empty k).1) (omega arith),
      rw (← same) (perform_all-IsConsistent new xs new-IsConsistent k),
      refl,
    )

-- After any calls on a new map, the report's types ascend and none comes twice. They are the three of
-- a new map and those that a call names. The message of each is the texts given for it, joined, its
-- reason is the worst that was reported for it, with the status that goes with that, and the
-- generation is the given one.
pub to_conditions-IsTold :
    (xs : List Call) (g : ℕ) (k : String)
    → IsSorted str_leb (types (to_conditions (perform_all new xs) g))
      × HasNoRepeats (types (to_conditions (perform_all new xs) g))
      × (contains (types (to_conditions (perform_all new xs) g)) k
          ≡ (contains (applied ∷ available ∷ configured ∷ []) k || any (λ x. target x == k) xs))
      × All (IsTold xs g) (to_conditions (perform_all new xs) g)
unfolding to_conditions new
to_conditions-IsTold xs g k =
    let metas = map (to_meta g) (perform_all new xs) in
    (
      types-IsSorted (sort by_type metas) (sort-IsSorted by_type-total by_type_trans metas),
      HasNoRepeats-Shuffle
          (map-Shuffle (λ (m : MetaCondition). m.cond_type) (sort-Shuffle by_type metas))
          (types-HasNoRepeats g (perform_all new xs)
            (perform_all-HasDistinctKeys new xs new-HasDistinctKeys)),
      sym (
            contains-Shuffle k
              (map-Shuffle (λ (m : MetaCondition). m.cond_type) (sort-Shuffle by_type metas)))
          ∙ ap (λ l. contains l k) (types-to_meta g (perform_all new xs))
          ∙ perform_all-keys new xs k,
      All-Shuffle (IsTold xs g) (sort-Shuffle by_type metas) (
          told xs g (perform_all new xs) (perform_all-HasDistinctKeys new xs new-HasDistinctKeys)
            (entry-IsTold xs g)),
    )
