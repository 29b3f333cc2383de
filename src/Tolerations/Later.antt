-- ===== src/Tolerations/Later.antt =====
-- The later toleration wins, and the size of the result, for pkg/utils/tolerations/tolerations.go.
use piraeus_operator.Base.{
  Bool, true, false, List, [], ◌∷◌, ◌++◌, ◌+◌, Option, none, some, ◌≡◌, refl, sym, ◌∙◌, ap, arith,
  if◌then◌else◌, length, length-append, find_first, any, is_some, ◌||◌, suc, ℕ,
}
use piraeus_operator.Tolerations.{
  replace_matching, add_toleration, add_tolerations, add_lists, merge_tolerations,
}

-- The last of a list with a property, or else what there was before.
abbrev pub last_with : {A : Type 0} → (A → Bool) → Option A → List A → Option A
last_with p before [] = before
last_with p before (x ∷ xs) = last_with p (if p x then some x else before) xs

abbrev pub concat : {A : Type 0} → List (List A) → List A
concat [] = []
concat (xs ∷ more) = xs ++ concat more

find_first-append :
    {A : Type 0} (p : A → Bool) (xs ys : List A)
    → find_first p (xs ++ ys) ≡ elim (find_first p xs) [ none ↦ find_first p ys | some x ↦ some x ]
find_first-append p [] ys = refl
find_first-append p (x ∷ xs) ys = ground (arith, find_first-append p xs ys)

any_iff_find : {A : Type 0} (p : A → Bool) (xs : List A) → any p xs ≡ is_some (find_first p xs)
any_iff_find p [] = refl
any_iff_find p (x ∷ xs) = ground (arith, any_iff_find p xs)

any-append :
    {A : Type 0} (p : A → Bool) (xs ys : List A) → any p (xs ++ ys) ≡ (any p xs || any p ys)
any-append p [] ys = refl
any-append p (x ∷ xs) ys = ground (arith, any-append p xs ys)

-- How many of a list match nothing that stands before them, `seen` being what stands before it.
abbrev pub count_fresh : {T : Type 0} → (T → T → Bool) → List T → List T → ℕ
count_fresh matches seen [] = 0
count_fresh matches seen (t ∷ ts) =
    let rest = count_fresh matches (seen ++ t ∷ []) ts in
    if any (matches t) seen then rest else suc rest

module _ {T : Type 0} (matches : T → T → Bool) where
  replace_matching-length :
      (t : T) (result : List T) → length (replace_matching matches t result).0 ≡ length result
  unfolding replace_matching
  replace_matching-length t [] = refl
  replace_matching-length t (r ∷ result) = ground (arith, replace_matching-length t result)

  replace_matching-any :
      (t : T) (result : List T) → (replace_matching matches t result).1 ≡ any (matches t) result
  unfolding replace_matching
  replace_matching-any t [] = refl
  replace_matching-any t (r ∷ result) = ground (arith, replace_matching-any t result)

  add_toleration-length :
      (result : List T) (t : T)
      → length (add_toleration matches result t)
        ≡ (if any (matches t) result then length result else suc (length result))
  unfolding add_toleration
  add_toleration-length result t = ground (
    arith,
    replace_matching-any t result,
    replace_matching-length t result,
    length-append (replace_matching matches t result).0 (t ∷ []),
  )

  -- The loop over the lists is one loop over all that they hold.
  add_lists-concat :
      (result : List T) (more : List (List T))
      → add_lists matches result more ≡ add_tolerations matches result (concat more)
  unfolding add_lists add_tolerations
  add_lists-concat result [] = refl
  add_lists-concat result (ts ∷ more) =
      add_lists-concat (add_tolerations matches result ts) more ∙ sym (onward ts result)
    where
      onward :
          (us r : List T)
          → add_tolerations matches r (us ++ concat more)
            ≡ add_tolerations matches (add_tolerations matches r us) (concat more)
      onward [] r = refl
      onward (u ∷ us) r = onward us (add_toleration matches r u)

module _ {T : Type 0} (matches : T → T → Bool)
    (symm : (a b : T) → matches a b ≡ true → matches b a ≡ true)
    (trans : (a b c : T) → matches a b ≡ true → matches b c ≡ true → matches a c ≡ true) where
  replaced_same :
      (k t : T) (result : List T)
      → matches k t ≡ true
      → find_first (matches k) (replace_matching matches t result).0
        ≡ (if (replace_matching matches t result).1 then some t else none)
  unfolding replace_matching
  replaced_same k t [] h = refl
  replaced_same k t (r ∷ result) h =
      ground (arith, replaced_same k t result h, symm k t, trans t k r)

  replaced_other :
      (k t : T) (result : List T)
      → matches k t ≡ false
      → find_first (matches k) (replace_matching matches t result).0 ≡ find_first (matches k) result
  unfolding replace_matching
  replaced_other k t [] h = refl
  replaced_other k t (r ∷ result) h =
      ground (arith, replaced_other k t result h, symm t r, trans k r t)

  add_toleration-find :
      (k : T) (result : List T) (t : T)
      → find_first (matches k) (add_toleration matches result t)
        ≡ (if matches k t then some t else find_first (matches k) result)
  unfolding add_toleration
  add_toleration-find k result t = ground (
    arith,
    replaced_same k t result,
    replaced_other k t result,
    find_first-append (matches k) (replace_matching matches t result).0 (t ∷ []),
  )

  add_tolerations-find :
      (k : T) (result ts : List T)
      → find_first (matches k) (add_tolerations matches result ts)
        ≡ last_with (matches k) (find_first (matches k) result) ts
  unfolding add_tolerations
  add_tolerations-find k result [] = refl
  add_tolerations-find k result (t ∷ ts) =
      add_tolerations-find k (add_toleration matches result t) ts
      ∙ ap (λ o. last_with (matches k) o ts) (add_toleration-find k result t)

  -- Where matching is symmetric and transitive, the toleration that a search of the merged list
  -- finds for k is the last one of all further lists that matches k, or else the one that the
  -- search finds in the first list.
  pub merge_tolerations-find :
      (k : T) (first : List T) (more : List (List T))
      → find_first (matches k) (merge_tolerations matches (first ∷ more))
        ≡ last_with (matches k) (find_first (matches k) first) (concat more)
  unfolding merge_tolerations
  merge_tolerations-find k first more =
      rw (add_lists-concat matches first more) (add_tolerations-find k first (concat more))

  add_toleration-any :
      (k : T) (result : List T) (t : T)
      → any (matches k) (add_toleration matches result t) ≡ (any (matches k) result || matches k t)
  add_toleration-any k result t = ground (
    arith,
    any_iff_find (matches k) (add_toleration matches result t),
    any_iff_find (matches k) result,
    add_toleration-find k result t,
  )

  add_tolerations-length :
      (seen result ts : List T)
      → ((k : T) → any (matches k) result ≡ any (matches k) seen)
      → length (add_tolerations matches result ts) ≡ length result + count_fresh matches seen ts
  unfolding add_tolerations
  add_tolerations-length seen result [] h = omega arith
  add_tolerations-length seen result (t ∷ ts) h = ground (
    arith,
    h t,
    add_toleration-length matches result t,
    add_tolerations-length (seen ++ t ∷ []) (add_toleration matches result t) ts (λ k.
        ground (arith, h k, add_toleration-any k result t, any-append (matches k) seen (t ∷ []))),
  )

  -- Where matching is symmetric and transitive, the merged list has as many tolerations as the first
  -- list, and one more for each toleration of the further lists that matches none before it, in the
  -- first list or in a further one.
  pub merge_tolerations-length :
      (first : List T) (more : List (List T))
      → length (merge_tolerations matches (first ∷ more))
        ≡ length first + count_fresh matches first (concat more)
  unfolding merge_tolerations
  merge_tolerations-length first more =
      rw (add_lists-concat matches first more)
        (add_tolerations-length first first (concat more) (λ k. refl))
