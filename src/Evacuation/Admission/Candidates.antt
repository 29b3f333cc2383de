-- ===== src/Evacuation/Admission/Candidates.antt =====
-- The candidates that `admitEvacuation` of pkg/evacuation/evacuation.go finds in a cluster.
use piraeus_operator.Base.{
  ℕ, String, Bool, true, false, List, [], ◌∷◌, ◌≡◌, refl, map, ◌||◌, ◌==◌, eq_refl, any, select,
  All, In, inl, inr, arith, Bool-cases, ap, In-of_All,
}
use piraeus_operator.Evacuation.Admission.{
  LinstorSatellite, Candidate, is_in_progress, is_waiting, to_candidate, gather, candidates,
}
use piraeus_operator.Evacuation.Admission.Index.{HasDistinctNames}

-- A satellite that is evacuating or waits for a slot.
abbrev pub is_candidate : LinstorSatellite → Bool
is_candidate sat = is_in_progress sat || is_waiting sat

-- Names are unique in a cluster.
abbrev pub HasUniqueNames : List LinstorSatellite → Type 0
HasUniqueNames [] = Unit
HasUniqueNames (x ∷ l) =
    All (λ y. ((x.name == y.name) ≡ false) × ((y.name == x.name) ≡ false)) l × HasUniqueNames l

-- The candidates that stand in the status of the cluster, whoever asks and whenever.
abbrev pub recorded : List LinstorSatellite → List Candidate
recorded satellites = map (to_candidate 0) (select is_candidate satellites)

-- What is recorded has a time of its own.
to_candidate-recorded :
    (now : ℕ) (sat : LinstorSatellite)
    → is_candidate sat ≡ true
    → to_candidate now sat ≡ to_candidate 0 sat
to_candidate-recorded now sat h = ground arith

-- Nobody of the list has that name but candidates.
abbrev pub AreCandidates : String → List LinstorSatellite → Type 0
AreCandidates name l = All (λ sat. (sat.name == name) ≡ true → is_candidate sat ≡ true) l

gather-eq-recorded :
    (name : String) (now : ℕ) (l : List LinstorSatellite)
    → AreCandidates name l
    → gather name now l ≡ recorded l
unfolding gather
gather-eq-recorded name now [] h = refl
gather-eq-recorded name now (sat ∷ l) (p, h) =
    ground (arith, gather-eq-recorded name now l h, to_candidate-recorded now sat)

AreCandidates-of_unique :
    (sat : LinstorSatellite) (l : List LinstorSatellite)
    → HasUniqueNames l
    → In sat l
    → is_candidate sat ≡ true
    → AreCandidates sat.name l
AreCandidates-of_unique sat [] u k h = tt
AreCandidates-of_unique sat (x ∷ l) (fresh, u) (inl e) h = (λ same. rw e h, later l fresh)
  where
    later :
        (r : List LinstorSatellite)
        → All (λ y. ((x.name == y.name) ≡ false) × ((y.name == x.name) ≡ false)) r
        → AreCandidates sat.name r
    later [] f = tt
    later (y ∷ r) ((p, q), f) =
        (λ same. ground (arith, ap (λ (s : LinstorSatellite). s.name) e), later r f)
AreCandidates-of_unique sat (x ∷ l) (fresh, u) (inr k) h =
    let (p, q) =
      In-of_All (λ y. ((x.name == y.name) ≡ false) × ((y.name == x.name) ≡ false)) l sat fresh k in
    (λ same. ground arith, AreCandidates-of_unique sat l u k h)

any_name :
    (sat : LinstorSatellite) (l : List LinstorSatellite)
    → In sat l
    → any (λ s. s.name == sat.name) l ≡ true
any_name sat [] k = absurd k
any_name sat (x ∷ l) (inl e) =
    ground (arith, eq_refl sat.name, ap (λ (s : LinstorSatellite). s.name) e)
any_name sat (x ∷ l) (inr k) = ground (arith, any_name sat l k)

-- A satellite that is already a candidate sees exactly the recorded candidates.
pub candidates-eq-recorded :
    (sat : LinstorSatellite) (now : ℕ) (l : List LinstorSatellite)
    → HasUniqueNames l
    → In sat l
    → is_candidate sat ≡ true
    → candidates sat.name now l ≡ recorded l
unfolding candidates
candidates-eq-recorded sat now l u k h = ground (
  arith,
  any_name sat l k,
  gather-eq-recorded sat.name now l (AreCandidates-of_unique sat l u k h),
)

fresh_recorded :
    (x : LinstorSatellite) (l : List LinstorSatellite)
    → All (λ y. ((x.name == y.name) ≡ false) × ((y.name == x.name) ≡ false)) l
    → All
        (λ (c : Candidate). ((x.name == c.name) ≡ false) × ((c.name == x.name) ≡ false))
        (recorded l)
fresh_recorded x [] h = tt
fresh_recorded x (y ∷ l) (p, h) = elim (Bool-cases (is_candidate y)) [
  | inl e ↦ rw e (p, fresh_recorded x l h)
  | inr e ↦ rw e (fresh_recorded x l h)
]

pub recorded-HasDistinctNames :
    (l : List LinstorSatellite) → HasUniqueNames l → HasDistinctNames (recorded l)
recorded-HasDistinctNames [] h = tt
recorded-HasDistinctNames (x ∷ l) (fresh, h) = elim (Bool-cases (is_candidate x)) [
  | inl e ↦ rw e (fresh_recorded x l fresh, recorded-HasDistinctNames l h)
  | inr e ↦ rw e (recorded-HasDistinctNames l h)
]

pub In-recorded :
    (sat : LinstorSatellite) (l : List LinstorSatellite)
    → In sat l
    → is_candidate sat ≡ true
    → In (to_candidate 0 sat) (recorded l)
In-recorded sat [] k h = absurd k
In-recorded sat (x ∷ l) (inl e) h =
    let c : is_candidate x ≡ true = rw e h in rw c (inl (ap (to_candidate 0) e))
In-recorded sat (x ∷ l) (inr k) h = elim (Bool-cases (is_candidate x)) [
  | inl e ↦ rw e (inr (In-recorded sat l k h))
  | inr e ↦ rw e (In-recorded sat l k h)
]
