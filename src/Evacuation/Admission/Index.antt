-- ===== src/Evacuation/Admission/Index.antt =====
-- Places in the ordered list of candidates of `admitEvacuation` in pkg/evacuation/evacuation.go.
use piraeus_operator.Base.{
  ℕ, zero, suc, ◌≤◌, ◌<◌, String, Bool, true, false, List, [], ◌∷◌, Option, some, ◌≡◌, refl, ◌==◌,
  eq_iff, eq_refl, length, select, All, In, Shuffle, done, keep, swap, then_by, inl, inr, arith,
  IsSorted, Bool-cases, str_leb-total, str_leb_trans, str_leb_antisymm, In-of_All, All-of_In, ap,
  All-Shuffle,
}
use piraeus_operator.Evacuation.Admission.{Candidate, candidate_leb, index_func, is_below}

pub candidate_leb-total : (a b : Candidate) → candidate_leb a b ≡ false → candidate_leb b a ≡ true
candidate_leb-total a b h = ground (arith, str_leb-total a.name b.name)

pub candidate_leb_trans :
    (a b c : Candidate)
    → candidate_leb a b ≡ true
    → candidate_leb b c ≡ true
    → candidate_leb a c ≡ true
candidate_leb_trans a b c h k = ground (arith, str_leb_trans a.name b.name c.name)

pub candidate_leb_antisymm :
    (a b : Candidate) → candidate_leb a b ≡ true → candidate_leb b a ≡ true → a.name ≡ b.name
candidate_leb_antisymm a b h k = ground (arith, str_leb_antisymm a.name b.name)

abbrev pub place : String → List Candidate → Option ℕ
place name l = index_func (λ c. c.name == name) l

abbrev pub HasDistinctNames : List Candidate → Type 0
HasDistinctNames [] = Unit
HasDistinctNames (x ∷ l) =
    All (λ y. ((x.name == y.name) ≡ false) × ((y.name == x.name) ≡ false)) l × HasDistinctNames l

pub All-Shuffle_back {κ} :
    {A : Type 0} (P : A → Type κ) {xs ys : List A} → Shuffle xs ys → All P ys → All P xs
All-Shuffle_back P done h = tt
All-Shuffle_back P (keep a s) (p, h) = (p, All-Shuffle_back P s h)
All-Shuffle_back P (swap a b xs) (p, (q, h)) = (q, (p, h))
All-Shuffle_back P (then_by s t) h = All-Shuffle_back P s (All-Shuffle_back P t h)

pub length-select-Shuffle :
    {A : Type 0} (p : A → Bool) {xs ys : List A}
    → Shuffle xs ys
    → length (select p xs) ≡ length (select p ys)
length-select-Shuffle p done = refl
length-select-Shuffle p (keep a s) = ground (arith, length-select-Shuffle p s)
length-select-Shuffle p (swap a b xs) = ground arith
length-select-Shuffle p (then_by s t) =
    omega (arith, length-select-Shuffle p s, length-select-Shuffle p t)

pub length-select_cong :
    {A : Type 0} (p q : A → Bool) (xs : List A)
    → All (λ x. p x ≡ q x) xs
    → length (select p xs) ≡ length (select q xs)
length-select_cong p q [] h = refl
length-select_cong p q (x ∷ xs) (e, h) = ground (arith, length-select_cong p q xs h)

-- A candidate of the list has a place in it.
pub place_found :
    (l : List Candidate) (c : Candidate) → In c l → (i : ℕ) × (place c.name l ≡ some i)
place_found [] c k = absurd k
place_found (x ∷ l) c (inl e) = (0, ground (arith, eq_refl c.name))
place_found (x ∷ l) c (inr k) = elim (Bool-cases (x.name == c.name)) [
  | inl same ↦ (0, ground arith)
  | inr other ↦ let (i, e) = place_found l c k in (suc i, ground arith)
]

pub length-select_none :
    {A : Type 0} (p : A → Bool) (xs : List A) → All (λ x. p x ≡ false) xs → length (select p xs) ≡ 0
length-select_none p [] h = refl
length-select_none p (x ∷ xs) (e, h) = ground (arith, length-select_none p xs h)

none_below_zero : (l : List Candidate) → All (λ c. is_below (place c.name l) 0 ≡ false) l
none_below_zero l =
    All-of_In (λ c. is_below (place c.name l) 0 ≡ false) l
      λ c k. let (i, e) = place_found l c k in rw e (ground arith)

below_cons :
    (m : ℕ) (x : Candidate) (l rest : List Candidate)
    → All (λ y. ((x.name == y.name) ≡ false) × ((y.name == x.name) ≡ false)) rest
    → All (λ y. is_below (place y.name (x ∷ l)) (suc m) ≡ is_below (place y.name l) m) rest
below_cons m x l [] h = tt
below_cons m x l (y ∷ rest) ((e, _), h) = (ground (arith, e), below_cons m x l rest h)

-- Of a list with distinct names, at most `m` candidates have a place below `m`.
pub below_at_most :
    (m : ℕ) (l : List Candidate)
    → HasDistinctNames l
    → length (select (λ c. is_below (place c.name l) m) l) ≤ m
below_at_most zero l h =
    omega (arith, length-select_none (λ c. is_below (place c.name l) 0) l (none_below_zero l))
below_at_most (suc m) [] h = omega arith
below_at_most (suc m) (x ∷ l) (fresh, h) = ground (
  arith,
  below_at_most m l h,
  length-select_cong (λ c. is_below (place c.name (x ∷ l)) (suc m))
      (λ c. is_below (place c.name l) m) l (below_cons m x l l fresh),
)

-- In an ascending list, a candidate that is in progress has no other kind before it.
pub place_in_progress :
    (l : List Candidate) (c : Candidate)
    → IsSorted candidate_leb l
    → In c l
    → c.in_progress ≡ true
    → (i : ℕ) × (place c.name l ≡ some i) × (i < length (select (λ d. d.in_progress) l))
place_in_progress [] c s k h = absurd k
place_in_progress (x ∷ l) c (low, s) (inl e) h =
    (0, ground (arith, eq_refl c.name), ground (arith, ap (λ (d : Candidate). d.in_progress) e))
place_in_progress (x ∷ l) c (low, s) (inr k) h =
    let first = In-of_All (λ y. candidate_leb x y ≡ true) l c low k in
    let (i, e, under) = place_in_progress l c s k h in
    elim (Bool-cases (x.name == c.name)) [
      | inl same ↦ (0, ground arith, ground arith)
      | inr other ↦ (suc i, ground arith, ground arith)
    ]

-- In an ascending list with distinct names, places go up with the order.
pub place_mono :
    (l : List Candidate) (c d : Candidate)
    → HasDistinctNames l
    → IsSorted candidate_leb l
    → In c l
    → In d l
    → candidate_leb c d ≡ true
    → (i j : ℕ) × (place c.name l ≡ some i) × (place d.name l ≡ some j) × (i ≤ j)
place_mono [] c d n s k m h = absurd k
place_mono (x ∷ l) c d n (low, s) (inl e) m h =
    let (j, at) = place_found (x ∷ l) d m in
    (0, j, ground (arith, eq_refl c.name, ap (λ (a : Candidate). a.name) e), at, omega arith)
place_mono (x ∷ l) c d n (low, s) (inr k) (inl e) h =
    let first = In-of_All (λ y. candidate_leb x y ≡ true) l c low k in
    let same : c.name ≡ x.name = candidate_leb_antisymm c x (rw e h) first in
    (
      0,
      0,
      ground (arith, eq_iff x.name c.name),
      ground (arith, eq_refl d.name, ap (λ (a : Candidate). a.name) e),
      omega arith,
    )
place_mono (x ∷ l) c d (fresh, n) (low, s) (inr k) (inr m) h =
    let (i, j, p, q, r) = place_mono l c d n s k m h in
    let other_c =
      In-of_All (λ y. ((x.name == y.name) ≡ false) × ((y.name == x.name) ≡ false)) l c fresh k in
    let other_d =
      In-of_All (λ y. ((x.name == y.name) ≡ false) × ((y.name == x.name) ≡ false)) l d fresh m in
    (suc i, suc j, ground (arith, other_c), ground (arith, other_d), omega arith)

pub HasDistinctNames-Shuffle :
    {xs ys : List Candidate} → Shuffle xs ys → HasDistinctNames xs → HasDistinctNames ys
HasDistinctNames-Shuffle done h = tt
HasDistinctNames-Shuffle (keep a s) (p, h) = (
  All-Shuffle (λ y. ((a.name == y.name) ≡ false) × ((y.name == a.name) ≡ false)) s p,
  HasDistinctNames-Shuffle s h,
)
HasDistinctNames-Shuffle (swap a b xs) ((pab, pa), (pb, h)) = (((pab.1, pab.0), pb), (pa, h))
HasDistinctNames-Shuffle (then_by s t) h = HasDistinctNames-Shuffle t (HasDistinctNames-Shuffle s h)
