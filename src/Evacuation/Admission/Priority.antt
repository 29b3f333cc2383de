-- ===== src/Evacuation/Admission/Priority.antt =====
-- Who goes first in `admitEvacuation` of pkg/evacuation/evacuation.go.
use piraeus_operator.Base.{
  ℕ, zero, suc, ◌≤◌, ◌<◌, true, List, [], ◌∷◌, ◌≡◌, refl, length, select, In, arith, sort-Shuffle,
  sort-IsSorted, In-Shuffle, some,
}
use piraeus_operator.Evacuation.Admission.{
  LinstorSatellite, Candidate, candidate_leb, to_candidate, is_in_progress, is_below,
  admit_evacuation,
}
use piraeus_operator.Evacuation.Admission.Index.{
  HasDistinctNames-Shuffle, place_in_progress, place_mono, candidate_leb-total, candidate_leb_trans,
  length-select-Shuffle,
}
use piraeus_operator.Evacuation.Admission.Candidates.{
  is_candidate, HasUniqueNames, recorded, recorded-HasDistinctNames, In-recorded,
}
use piraeus_operator.Evacuation.Admission.Capacity.{ordered, admit_evacuation-ordered}

In-ordered :
    (sat : LinstorSatellite) (l : List LinstorSatellite)
    → In sat l
    → is_candidate sat ≡ true
    → In (to_candidate 0 sat) (ordered l)
In-ordered sat l k h =
    In-Shuffle (to_candidate 0 sat) (sort-Shuffle candidate_leb (recorded l))
      (In-recorded sat l k h)

select-in_progress :
    (l : List LinstorSatellite)
    → length (select (λ (c : Candidate). c.in_progress) (recorded l))
      ≡ length (select is_in_progress l)
select-in_progress [] = refl
select-in_progress (x ∷ l) = ground (arith, select-in_progress l)

-- While no more satellites are in progress than the limit allows, each of them stays admitted:
-- started work is not interrupted, whoever else waits. Names are unique.
pub started_stays_admitted :
    (sat : LinstorSatellite) (limit now : ℕ) (l : List LinstorSatellite)
    → HasUniqueNames l
    → In sat l
    → is_in_progress sat ≡ true
    → length (select is_in_progress l) ≤ limit
    → (admit_evacuation sat.name limit now l).admitted ≡ true
started_stays_admitted sat zero now l u k h few = unfold admit_evacuation in refl
started_stays_admitted sat (suc limit) now l u k h few =
    let (i, at, under) =
      place_in_progress (ordered l) (to_candidate 0 sat)
        (sort-IsSorted candidate_leb-total candidate_leb_trans (recorded l))
        (In-ordered sat l k (ground arith)) h in
    let small : i < suc limit = omega (
      arith,
      length-select-Shuffle (λ (c : Candidate). c.in_progress)
          (sort-Shuffle candidate_leb (recorded l)),
      select-in_progress l,
    ) in
    rw (admit_evacuation-ordered sat limit now l u k (ground arith), at) (ground arith)

-- If a candidate is admitted, so is every candidate that stands before it in the order (in progress
-- first, then by waiting time, then by name). Names are unique.
pub admit_evacuation_mono :
    (a b : LinstorSatellite) (limit now_a now_b : ℕ) (l : List LinstorSatellite)
    → HasUniqueNames l
    → In a l
    → In b l
    → is_candidate a ≡ true
    → is_candidate b ≡ true
    → candidate_leb (to_candidate 0 a) (to_candidate 0 b) ≡ true
    → (admit_evacuation b.name limit now_b l).admitted ≡ true
    → (admit_evacuation a.name limit now_a l).admitted ≡ true
admit_evacuation_mono a b zero now_a now_b l u ka kb ca cb h e = unfold admit_evacuation in refl
admit_evacuation_mono a b (suc limit) now_a now_b l u ka kb ca cb h e =
    let (i, j, at_a, at_b, le) =
      place_mono (ordered l) (to_candidate 0 a) (to_candidate 0 b)
        (HasDistinctNames-Shuffle (sort-Shuffle candidate_leb (recorded l))
          (recorded-HasDistinctNames l u))
        (sort-IsSorted candidate_leb-total candidate_leb_trans (recorded l)) (In-ordered a l ka ca)
        (In-ordered b l kb cb) h in
    let below : is_below (some j) (suc limit) ≡ true =
      rw (admit_evacuation-ordered b limit now_b l u kb cb, at_b) at e in
    rw (admit_evacuation-ordered a limit now_a l u ka ca, at_a) (ground arith)
