-- ===== src/Base/Sort.antt =====
-- Sorting by a Boolean order, as far as the callers of Go's sort functions can tell: the result is
-- ascending, has the same items, and does not depend on the order of the input where the order
-- separates the items.
use mathlib.Core.Path.{◌≡◌, refl, ap, ◌∙◌}
use mathlib.Core.Logic.{inl, inr}
use mathlib.Core.Bool.{Bool, true, false}
use mathlib.Core.List.{List, [], ◌∷◌}
use native.Mathlib.Omega.{arith}
use piraeus_operator.Base.Tests.{if◌then◌else◌, Bool-cases}
use piraeus_operator.Base.Lists.{All, All-imp, In}

-- The same items in another order.
pub data Shuffle {A : Type 0} : List A → List A → Type 0 where
  done : Shuffle [] []
  keep : (a : A) {xs ys : List A} → Shuffle xs ys → Shuffle (a ∷ xs) (a ∷ ys)
  swap : (a b : A) (xs : List A) → Shuffle (a ∷ b ∷ xs) (b ∷ a ∷ xs)
  then_by : {xs ys zs : List A} → Shuffle xs ys → Shuffle ys zs → Shuffle xs zs

pub All-Shuffle {κ} :
    {A : Type 0} (P : A → Type κ) {xs ys : List A} → Shuffle xs ys → All P xs → All P ys
All-Shuffle P done h = tt
All-Shuffle P (keep a s) (p, h) = (p, All-Shuffle P s h)
All-Shuffle P (swap a b xs) (p, (q, h)) = (q, (p, h))
All-Shuffle P (then_by s t) h = All-Shuffle P t (All-Shuffle P s h)

module _ {A : Type 0} (le : A → A → Bool) where
  unfoldable pub insert : A → List A → List A
  insert a [] = a ∷ []
  insert a (x ∷ xs) = let rest = insert a xs in if le a x then a ∷ x ∷ xs else x ∷ rest

  unfoldable pub sort : List A → List A
  unfolding insert
  sort [] = []
  sort (x ∷ xs) = insert x (sort xs)

  abbrev pub IsSorted : List A → Type 0
  IsSorted [] = Unit
  IsSorted (x ∷ xs) = All (λ y. le x y ≡ true) xs × IsSorted xs

  -- No two items stand at the same place of the order.
  abbrev pub Separates : A → A → Type 0
  Separates a b = le a b ≡ true → le b a ≡ true → a ≡ b

  abbrev pub AllSeparate : List A → Type 0
  AllSeparate [] = Unit
  AllSeparate (x ∷ xs) = All (λ y. Separates x y × Separates y x) xs × AllSeparate xs

  pub AllSeparate-Shuffle : {xs ys : List A} → Shuffle xs ys → AllSeparate xs → AllSeparate ys
  AllSeparate-Shuffle done h = tt
  AllSeparate-Shuffle (keep a s) (p, h) =
      (All-Shuffle (λ y. Separates a y × Separates y a) s p, AllSeparate-Shuffle s h)
  AllSeparate-Shuffle (swap a b xs) ((pab, pa), (pb, h)) = (((pab.1, pab.0), pb), (pa, h))
  AllSeparate-Shuffle (then_by s t) h = AllSeparate-Shuffle t (AllSeparate-Shuffle s h)

  pub insert-Shuffle : (a : A) (xs : List A) → Shuffle (a ∷ xs) (insert a xs)
  unfolding insert
  insert-Shuffle a [] = keep a done
  insert-Shuffle a (x ∷ xs) = elim (Bool-cases (le a x)) [
    | inl e ↦ rw e (Shuffle-refl (a ∷ x ∷ xs))
    | inr e ↦ rw e (then_by (swap a x xs) (keep x (insert-Shuffle a xs)))
  ]
    where
      Shuffle-refl : (l : List A) → Shuffle l l
      Shuffle-refl [] = done
      Shuffle-refl (y ∷ l) = keep y (Shuffle-refl l)

  pub sort-Shuffle : (xs : List A) → Shuffle xs (sort xs)
  unfolding sort
  sort-Shuffle [] = done
  sort-Shuffle (x ∷ xs) = then_by (keep x (sort-Shuffle xs)) (insert-Shuffle x (sort xs))

module _ {A : Type 0} {le : A → A → Bool} (total : (a b : A) → le a b ≡ false → le b a ≡ true)
    (trans : (a b c : A) → le a b ≡ true → le b c ≡ true → le a c ≡ true) where
  pub insert-IsSorted : (a : A) (xs : List A) → IsSorted le xs → IsSorted le (insert le a xs)
  unfolding insert
  insert-IsSorted a [] h = (tt, tt)
  insert-IsSorted a (x ∷ xs) (low, h) = elim (Bool-cases (le a x)) [
    | inl e ↦ rw e ((e, All-imp (λ y q. trans a x y e q) xs low), (low, h))
    | inr e ↦ rw e (
      All-Shuffle (λ y. le x y ≡ true) (insert-Shuffle le a xs) (total a x e, low),
      insert-IsSorted a xs h,
    )
  ]

  pub sort-IsSorted : (xs : List A) → IsSorted le (sort le xs)
  unfolding sort
  sort-IsSorted [] = tt
  sort-IsSorted (x ∷ xs) = insert-IsSorted x (sort le xs) (sort-IsSorted xs)

  insert_comm :
      (a b : A) (xs : List A)
      → Separates le a b
      → Separates le b a
      → insert le a (insert le b xs) ≡ insert le b (insert le a xs)
  unfolding insert
  insert_comm a b [] p q = ground (arith, total a b, total b a)
  insert_comm a b (x ∷ xs) p q = ground (
    arith,
    total a b,
    total b a,
    total a x,
    total b x,
    trans a b x,
    trans b a x,
    trans x a b,
    trans x b a,
    trans a x b,
    trans b x a,
    insert_comm a b xs p q,
  )

  -- The input's order does not show in the result.
  pub sort_cong : {xs ys : List A} → Shuffle xs ys → AllSeparate le xs → sort le xs ≡ sort le ys
  unfolding sort
  sort_cong done h = refl
  sort_cong (keep a s) (p, h) = ap (insert le a) (sort_cong s h)
  sort_cong (swap a b xs) ((pab, pa), (pb, h)) = insert_comm a b (sort le xs) pab.0 pab.1
  sort_cong (then_by s t) h = sort_cong s h ∙ sort_cong t (AllSeparate-Shuffle le s h)

pub In-Shuffle : {A : Type 0} (a : A) {xs ys : List A} → Shuffle xs ys → In a xs → In a ys
In-Shuffle a (keep b s) (inl e) = inl e
In-Shuffle a (keep b s) (inr k) = inr (In-Shuffle a s k)
In-Shuffle a (swap b c xs) (inl e) = inr (inl e)
In-Shuffle a (swap b c xs) (inr (inl e)) = inl e
In-Shuffle a (swap b c xs) (inr (inr k)) = inr (inr k)
In-Shuffle a (then_by s t) k = In-Shuffle a t (In-Shuffle a s k)
In-Shuffle a done k = absurd k
