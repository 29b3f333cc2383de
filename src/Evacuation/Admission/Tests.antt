-- ===== src/Evacuation/Admission/Tests.antt =====
-- `admitEvacuation` of pkg/evacuation/evacuation.go on a small cluster, and its theorems there.
use piraeus_operator.Base.{
  ℕ, ◌≤◌, String, true, false, List, [], ◌∷◌, ◌≡◌, refl, ◌&&◌, length, select, some, none, inl, inr,
  arith, sort, insert,
}
use piraeus_operator.Conditions.{is_false}
use piraeus_operator.Evacuation.Admission.{LinstorSatellite, admit_evacuation, candidates, gather}
use piraeus_operator.Evacuation.Admission.Candidates.{is_candidate, HasUniqueNames}
use piraeus_operator.Evacuation.Admission.Capacity.{admit_evacuation-limit}
use piraeus_operator.Evacuation.Admission.Priority.{started_stays_admitted, admit_evacuation_mono}

abbrev evacuating : String → String → ℕ → LinstorSatellite
evacuating name reason since = record {
  name = name;
  generation = 1;
  is_deleted = true;
  condition = λ t. some (record {
    status = is_false;
    reason = reason;
    observed_generation = 1;
    last_transition_time = since;
  });
}

abbrev busy : LinstorSatellite
busy = evacuating "c" "InProgress" 9

abbrev early : LinstorSatellite
early = evacuating "b" "Waiting" 3

abbrev late : LinstorSatellite
late = evacuating "a" "Waiting" 5

abbrev idle : LinstorSatellite
idle = record { name = "d"; generation = 1; is_deleted = false; condition = λ t. none }

abbrev cluster : List LinstorSatellite
cluster = idle ∷ late ∷ early ∷ busy ∷ []

second_place :
    admit_evacuation "b" 1 20 cluster ≡ record { admitted = false; position = some 1; total = 3 }
unfolding admit_evacuation candidates gather sort insert
second_place = refl

newcomer_place :
    admit_evacuation "d" 4 20 cluster ≡ record { admitted = true; position = some 3; total = 4 }
unfolding admit_evacuation candidates gather sort insert
newcomer_place = refl

unique : HasUniqueNames cluster
unique = (
  ((refl, refl), ((refl, refl), ((refl, refl), tt))),
  (((refl, refl), ((refl, refl), tt)), (((refl, refl), tt), (tt, tt))),
)

admit_evacuation-limit_example :
    length (select (λ s. is_candidate s && (admit_evacuation s.name 2 20 cluster).admitted) cluster)
    ≤ 2
admit_evacuation-limit_example = admit_evacuation-limit 2 (λ name. 20) cluster (omega arith) unique

started_stays_admitted_example : (admit_evacuation "c" 1 20 cluster).admitted ≡ true
started_stays_admitted_example =
    started_stays_admitted busy 1 20 cluster unique (inr (inr (inr (inl refl)))) refl (omega arith)

late_admitted : (admit_evacuation "a" 3 20 cluster).admitted ≡ true
unfolding admit_evacuation candidates gather sort insert
late_admitted = refl

admit_evacuation_mono_example : (admit_evacuation "b" 3 20 cluster).admitted ≡ true
admit_evacuation_mono_example =
    admit_evacuation_mono early late 3 20 20 cluster unique (inr (inr (inl refl))) (inr (inl refl))
      refl refl refl late_admitted
