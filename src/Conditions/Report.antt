-- ===== src/Conditions/Report.antt =====
-- The report of pkg/conditions/conditions.go: `ToConditions` lists the conditions by type, and the
-- order in which Go's map hands them out does not show.
use piraeus_operator.Base.{
  ℕ, String, true, false, List, [], ◌∷◌, ◌≡◌, ◌≢◌, refl, map, arith, eq_iff, contains, Shuffle,
  done, keep, swap, then_by, AllSeparate, Separates, All, sort_cong, str_leb-total, str_leb_trans,
  str_leb_antisymm, keys, HasDistinctKeys, put-HasDistinctKeys,
}
use piraeus_operator.Conditions.{
  Condition, Conditions, MetaCondition, to_meta, by_type, to_conditions, new, add_success,
  add_completed, add_waiting, add_in_progress, add_error, add_unknown,
}
use piraeus_operator.Conditions.Priority.{
  Call, success, complete, wait, progress, fail, unclear, perform, perform_all,
}

perform-HasDistinctKeys :
    (c : Conditions) (x : Call) → HasDistinctKeys c → HasDistinctKeys (perform c x)
unfolding perform add_success add_completed add_waiting add_in_progress add_error add_unknown
perform-HasDistinctKeys c (success t m) h = put-HasDistinctKeys c t _ h
perform-HasDistinctKeys c (complete t m) h = put-HasDistinctKeys c t _ h
perform-HasDistinctKeys c (wait t m) h = put-HasDistinctKeys c t _ h
perform-HasDistinctKeys c (progress t m) h = put-HasDistinctKeys c t _ h
perform-HasDistinctKeys c (fail t m) h = put-HasDistinctKeys c t _ h
perform-HasDistinctKeys c (unclear t m) h = put-HasDistinctKeys c t _ h

pub perform_all-HasDistinctKeys :
    (c : Conditions) (xs : List Call) → HasDistinctKeys c → HasDistinctKeys (perform_all c xs)
unfolding perform_all
perform_all-HasDistinctKeys c [] h = h
perform_all-HasDistinctKeys c (x ∷ xs) h =
    perform_all-HasDistinctKeys (perform c x) xs (perform-HasDistinctKeys c x h)

pub map-Shuffle :
    {A B : Type 0} (f : A → B) {xs ys : List A} → Shuffle xs ys → Shuffle (map f xs) (map f ys)
map-Shuffle f done = done
map-Shuffle f (keep a s) = keep (f a) (map-Shuffle f s)
map-Shuffle f (swap a b xs) = swap (f a) (f b) (map f xs)
map-Shuffle f (then_by s t) = then_by (map-Shuffle f s) (map-Shuffle f t)

separate_fresh :
    (g : ℕ) (k : String) (v : Condition) (c : Conditions)
    → contains (keys c) k ≡ false
    → All
        (λ y. Separates by_type (to_meta g (k, v)) y × Separates by_type y (to_meta g (k, v)))
        (map (to_meta g) c)
separate_fresh g k v [] h = tt
separate_fresh g k v ((j, w) ∷ c) h = (
  (
    λ p q. absurd (other (str_leb_antisymm k j p q)),
    λ p q. absurd (other (str_leb_antisymm k j q p)),
  ),
  separate_fresh g k v c (ground arith),
)
  where
    other : k ≢ j
    other e = ground (arith, eq_iff j k)

AllSeparate-to_meta :
    (g : ℕ) (c : Conditions) → HasDistinctKeys c → AllSeparate by_type (map (to_meta g) c)
AllSeparate-to_meta g [] h = tt
AllSeparate-to_meta g ((k, v) ∷ c) (fresh, h) =
    (separate_fresh g k v c fresh, AllSeparate-to_meta g c h)

pub by_type-total : (a b : MetaCondition) → by_type a b ≡ false → by_type b a ≡ true
by_type-total a b = str_leb-total a.cond_type b.cond_type

pub by_type_trans :
    (a b c : MetaCondition) → by_type a b ≡ true → by_type b c ≡ true → by_type a c ≡ true
by_type_trans a b c = str_leb_trans a.cond_type b.cond_type c.cond_type

pub new-HasDistinctKeys : HasDistinctKeys new
unfolding new
new-HasDistinctKeys = (refl, (refl, (refl, tt)))

-- Whatever calls were made on a new map, and in whatever order the map hands out its entries, the
-- report is the same list.
pub to_conditions-Shuffle :
    (xs : List Call) {d : Conditions} (g : ℕ)
    → Shuffle (perform_all new xs) d
    → to_conditions (perform_all new xs) g ≡ to_conditions d g
unfolding to_conditions
to_conditions-Shuffle xs g s = sort_cong by_type-total by_type_trans (map-Shuffle (to_meta g) s) (
    AllSeparate-to_meta g (perform_all new xs)
      (perform_all-HasDistinctKeys new xs new-HasDistinctKeys))
