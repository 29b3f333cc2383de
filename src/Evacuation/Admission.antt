-- ===== src/Evacuation/Admission.antt =====
-- `admitEvacuation` of pkg/evacuation/evacuation.go: which satellites may evacuate at a time.
-- Instants are numbers; only their order counts.
pub mod Index
pub mod Candidates
pub mod Capacity
pub mod Priority
mod Tests
use Prim.Native.Nat.{compare, Ordering}
use piraeus_operator.Base.{
  ℕ, zero, suc, String, Bool, true, false, List, [], ◌∷◌, ◌++◌, Option, none, some, not, ◌&&◌, ◌||◌,
  ◌==◌, if◌then◌else◌, str_leb, ltb, length, any, is_some, sort, or_else,
}
pub use piraeus_operator.Cluster.{StatusCondition, LinstorSatellite}

abbrev pub satellite_evacuated_condition : String
satellite_evacuated_condition = "SatelliteEvacuated"

pub record Candidate : Type 0 where
  pub name : String
  pub in_progress : Bool
  pub since : ℕ

-- `cond != nil && cond.Reason == reason`
abbrev pub has_reason : Option StatusCondition → String → Bool
has_reason none reason = false
has_reason (some cond) reason = cond.reason == reason

abbrev pub is_in_progress : LinstorSatellite → Bool
is_in_progress sat = has_reason (sat.condition satellite_evacuated_condition) "InProgress"

abbrev pub is_waiting : LinstorSatellite → Bool
is_waiting sat = has_reason (sat.condition satellite_evacuated_condition) "Waiting"

abbrev pub since_or : ℕ → Option StatusCondition → ℕ
since_or now none = now
since_or now (some cond) = cond.last_transition_time

abbrev pub to_candidate : ℕ → LinstorSatellite → Candidate
to_candidate now sat = record {
  name = sat.name;
  in_progress = is_in_progress sat;
  since = since_or now (sat.condition satellite_evacuated_condition);
}

-- the loop over the satellites
unfoldable pub gather : String → ℕ → List LinstorSatellite → List Candidate
gather name now [] = []
gather name now (sat ∷ rest) =
    let more = gather name now rest in
    if not (is_in_progress sat) && not (is_waiting sat) && not (sat.name == name)
    then more
    else to_candidate now sat ∷ more

unfoldable pub candidates : String → ℕ → List LinstorSatellite → List Candidate
unfolding gather
candidates name now satellites =
    let found = gather name now satellites in
    if any (λ sat. sat.name == name) satellites
    then found
    else found ++ record { name = name; in_progress = false; since = now } ∷ []

-- By the time since when they wait, then by name.
abbrev pub tie_leb : Candidate → Candidate → Bool
tie_leb a b = elim (compare a.since b.since) [
  | Ordering.lt ↦ true
  | Ordering.gt ↦ false
  | Ordering.eq ↦ str_leb a.name b.name
]

-- "not after" in the order of `slices.SortFunc`
abbrev pub candidate_leb : Candidate → Candidate → Bool
candidate_leb a b =
    if a.in_progress
    then if b.in_progress then tie_leb a b else true
    else if b.in_progress
    then false
    else tie_leb a b

-- `slices.IndexFunc`, with `none` for -1
abbrev pub index_func : (Candidate → Bool) → List Candidate → Option ℕ
index_func p [] = none
index_func p (c ∷ rest) =
    let later = index_func p rest in
    if p c then some 0 else elim later [ none ↦ none | some i ↦ some (suc i) ]

abbrev pub is_below : Option ℕ → ℕ → Bool
is_below none limit = true
is_below (some position) limit = ltb position limit

pub record Admission : Type 0 where
  pub admitted : Bool
  pub position : Option ℕ
  pub total : ℕ

-- The limit is a number from 0 on, as the custom resource requires; 0 means no limit.
unfoldable pub admit_evacuation : String → ℕ → ℕ → List LinstorSatellite → Admission
unfolding candidates
admit_evacuation name zero now satellites = record { admitted = true; position = some 0; total = 0 }
admit_evacuation name (suc limit) now satellites =
    let ordered = sort candidate_leb (candidates name now satellites) in
    let position = index_func (λ c. c.name == name) ordered in
    record { admitted = is_below position (suc limit); position = position; total = length ordered }
