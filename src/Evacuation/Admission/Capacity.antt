-- ===== src/Evacuation/Admission/Capacity.antt =====
-- The limit of `admitEvacuation` in pkg/evacuation/evacuation.go is kept across the cluster.
use piraeus_operator.Base.{
  ℕ, zero, suc, ◌≤◌, ◌<◌, String, Bool, true, List, [], ◌∷◌, ◌≡◌, refl, ◌&&◌, length, select, All,
  In, inl, inr, All-of_In, arith, sort, sort-Shuffle, Bool-cases,
}
use piraeus_operator.Evacuation.Admission.{
  LinstorSatellite, Candidate, candidate_leb, is_below, admit_evacuation,
}
use piraeus_operator.Evacuation.Admission.Index.{
  place, HasDistinctNames-Shuffle, below_at_most, length-select_cong, length-select-Shuffle,
}
use piraeus_operator.Evacuation.Admission.Candidates.{
  is_candidate, HasUniqueNames, recorded, candidates-eq-recorded, recorded-HasDistinctNames,
}

-- The order in which the candidates of a cluster are served.
abbrev pub ordered : List LinstorSatellite → List Candidate
ordered l = sort candidate_leb (recorded l)

-- A candidate's place is the one in the common order, whenever it asks.
pub admit_evacuation-ordered :
    (sat : LinstorSatellite) (limit now : ℕ) (l : List LinstorSatellite)
    → HasUniqueNames l
    → In sat l
    → is_candidate sat ≡ true
    → admit_evacuation sat.name (suc limit) now l ≡ record {
      admitted = is_below (place sat.name (ordered l)) (suc limit);
      position = place sat.name (ordered l);
      total = length (ordered l);
    }
unfolding admit_evacuation
admit_evacuation-ordered sat limit now l u k h = rw (candidates-eq-recorded sat now l u k h)

admitted_iff_below :
    (limit : ℕ) (now : String → ℕ) (l : List LinstorSatellite)
    → HasUniqueNames l
    → All
        (λ s.
          (is_candidate s && (admit_evacuation s.name (suc limit) (now s.name) l).admitted)
          ≡ (is_candidate s && is_below (place s.name (ordered l)) (suc limit)))
        l
admitted_iff_below limit now l u =
    All-of_In
      (λ s.
        (is_candidate s && (admit_evacuation s.name (suc limit) (now s.name) l).admitted)
        ≡ (is_candidate s && is_below (place s.name (ordered l)) (suc limit)))
      l
      λ s k. elim (Bool-cases (is_candidate s)) [
        | inl e ↦ rw (admit_evacuation-ordered s limit (now s.name) l u k e)
        | inr e ↦ rw e
      ]

select-recorded :
    (p : String → Bool) (l : List LinstorSatellite)
    → length (select (λ s. is_candidate s && p s.name) l)
      ≡ length (select (λ (c : Candidate). p c.name) (recorded l))
select-recorded p [] = refl
select-recorded p (x ∷ l) = ground (arith, select-recorded p l)

-- In one state of the cluster, at most `limit` of the satellites that evacuate or wait are admitted,
-- however many ask and at whatever times. The limit is not 0 and names are unique.
pub admit_evacuation-limit :
    (limit : ℕ) (now : String → ℕ) (l : List LinstorSatellite)
    → 0 < limit
    → HasUniqueNames l
    → length
        (select (λ s. is_candidate s && (admit_evacuation s.name limit (now s.name) l).admitted) l)
      ≤ limit
admit_evacuation-limit zero now l h u = absurd (omega arith)
admit_evacuation-limit (suc limit) now l h u =
    let p = λ (name : String). is_below (place name (ordered l)) (suc limit) in
    omega (
      arith,
      length-select_cong
          (λ s. is_candidate s && (admit_evacuation s.name (suc limit) (now s.name) l).admitted)
          (λ s. is_candidate s && p s.name) l (admitted_iff_below limit now l u),
      select-recorded p l,
      length-select-Shuffle (λ (c : Candidate). p c.name) (sort-Shuffle candidate_leb (recorded l)),
      below_at_most (suc limit) (ordered l) (
          HasDistinctNames-Shuffle (sort-Shuffle candidate_leb (recorded l))
            (recorded-HasDistinctNames l u)),
    )
