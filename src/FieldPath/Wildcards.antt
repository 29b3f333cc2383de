-- ===== src/FieldPath/Wildcards.antt =====
-- What a wildcard of pkg/utils/fieldpath/fieldpath.go finds in the labels or annotations of an object.
use piraeus_operator.Base.{
  String, true, false, List, [], ◌∷◌, none, some, ◌≡◌, ◌≢◌, refl, sym, ap, ◌∙◌, subst, ◌⧺◌, ◌==◌,
  map, or_else, is_some, cut_prefix, cut, cut_prefix-append, cut_prefix_sound, cut_suffix-append,
  Option-cases, Bool-cases, inl, inr, ne→test, test→ne, arith, Dict, get, keys, sort, str_leb,
  IsSorted, sort-IsSorted, str_leb-total, str_leb_trans, contains, contains-keys, sort-Shuffle,
  Shuffle, eq_iff,
}
use text.Mathlib.TextLemmas.{append_cancel_left}
use piraeus_operator.Cluster.Effect.{Result, ok}
use piraeus_operator.FieldPath.{
  ObjectMeta, KeyRules, Fields, filter_prefix, map_to_slices, subscripted, extract_at,
  extract_subscript, extract_field_path,
}
use piraeus_operator.FieldPath.Paths.{subscripted_path, split-subscripted_path}

pub get-filter_prefix :
    (m : Dict String) (prefix k : String) → get (filter_prefix m prefix) k ≡ get m (prefix ⧺ k)
unfolding get filter_prefix
get-filter_prefix [] prefix k = refl
get-filter_prefix ((j, v) ∷ m) prefix k = elim (Option-cases (cut_prefix prefix j)) [
  | inl e ↦
      let differ : (j == prefix ⧺ k) ≡ false = ne→test j (prefix ⧺ k) (λ same.
        let h : cut_prefix prefix j ≡ some k =
          ap (cut_prefix prefix) same ∙ cut_prefix-append prefix k in
        ground (arith, e, h)) in
      rw (filter_prefix, e, differ) (get-filter_prefix m prefix k)
  | inr (short, e) ↦
      let whole = cut_prefix_sound prefix j short e in
      elim (Bool-cases (short == k)) [
        | inl same ↦
            let here : (j == prefix ⧺ k) ≡ true =
              (eq_iff j (prefix ⧺ k)).1 (whole ∙ ap (λ x. prefix ⧺ x) ((eq_iff short k).0 same)) in
            rw (filter_prefix, e, get, same, here) refl
        | inr other ↦
            let differ : (j == prefix ⧺ k) ≡ false = ne→test j (prefix ⧺ k) (λ same.
              let h : short ≡ k = append_cancel_left prefix short k (sym whole ∙ same) in
              ground (arith, eq_iff short k)) in
            rw (filter_prefix, e, get, other, differ) (get-filter_prefix m prefix k)
      ]
]

contains-Shuffle :
    (k : String) {xs ys : List String} → Shuffle xs ys → contains ys k ≡ contains xs k
contains-Shuffle k Shuffle.done = refl
contains-Shuffle k (Shuffle.keep a s) = ground (arith, contains-Shuffle k s)
contains-Shuffle k (Shuffle.swap a b xs) = ground arith
contains-Shuffle k (Shuffle.then_by s t) = contains-Shuffle k t ∙ contains-Shuffle k s

-- The answer to a wildcard: the rests of the keys with the prefix, in ascending order, each with its
-- value.
abbrev pub IsExpansion : Dict String → String → Result Fields → Type 0
IsExpansion m prefix r =
    (ks : List String) × (r
      ≡ ok (record { vals = map (λ k. or_else "" (get m (prefix ⧺ k))) ks; keys = some ks }))
    × IsSorted str_leb ks
    × ((k : String) → contains ks k ≡ is_some (get m (prefix ⧺ k)))

subscripted-IsExpansion :
    (errs : List String) (m : Dict String) (field_path prefix : String)
    → IsExpansion m prefix (subscripted errs m field_path (prefix ⧺ "*"))
unfolding subscripted map_to_slices
subscripted-IsExpansion errs m field_path prefix =
    let found = filter_prefix m prefix in
    let ks = sort str_leb (keys found) in
    (
      ks,
      rw (subscripted, cut_suffix-append prefix "*", map_to_slices)
          (λ i. ok (record {
            vals = map (λ k. or_else "" (get-filter_prefix m prefix k i)) ks;
            keys = some ks;
          })),
      sort-IsSorted str_leb-total str_leb_trans (keys found),
      λ k.
          contains-Shuffle k (sort-Shuffle str_leb (keys found))
          ∙ contains-keys found k
          ∙ ap is_some (get-filter_prefix m prefix k),
    )

split_of :
    (path subscript : String)
    → path ≢ ""
    → cut "['" path ≡ none
    → (rules : KeyRules) (obj : ObjectMeta)
    → extract_field_path rules obj (subscripted_path path subscript)
      ≡ extract_subscript rules obj (subscripted_path path subscript) path subscript
unfolding extract_field_path
split_of path subscript filled plain rules obj =
    ap (extract_at rules obj (subscripted_path path subscript))
      (split-subscripted_path path subscript filled plain)

-- Labels that are asked for by `metadata.labels['P*']` are those whose keys start with `P`, each under the rest
-- of its key, the keys in ascending order and each value beside its key; it never fails. The same
-- holds of annotations.
pub extract_field_path-IsExpansion :
    (rules : KeyRules) (obj : ObjectMeta) (prefix : String)
    → IsExpansion obj.labels prefix
        (extract_field_path rules obj (subscripted_path "metadata.labels" (prefix ⧺ "*")))
      × IsExpansion obj.annotations prefix
          (extract_field_path rules obj (subscripted_path "metadata.annotations" (prefix ⧺ "*")))
unfolding extract_subscript cut
extract_field_path-IsExpansion rules obj prefix = (
  subst (IsExpansion obj.labels prefix)
      (sym (
        split_of "metadata.labels" (prefix ⧺ "*") (test→ne "metadata.labels" "" refl) refl rules
          obj))
      (subscripted-IsExpansion (rules.is_qualified_name (prefix ⧺ "*")) obj.labels
        (subscripted_path "metadata.labels" (prefix ⧺ "*")) prefix),
  subst (IsExpansion obj.annotations prefix)
      (sym (
        split_of "metadata.annotations" (prefix ⧺ "*") (test→ne "metadata.annotations" "" refl) refl
          rules obj))
      (subscripted-IsExpansion (rules.is_qualified_name (rules.to_lower (prefix ⧺ "*")))
        obj.annotations (subscripted_path "metadata.annotations" (prefix ⧺ "*")) prefix),
)
