-- ===== src/Conditions.antt =====
-- pkg/conditions/conditions.go: the conditions that a reconciler collects while it runs.
pub mod Priority
pub mod Report
pub mod Told
mod Tests
use piraeus_operator.Base.{
  ℕ, String, Bool, List, [], ◌∷◌, ◌++◌, map, ltb, if◌then◌else◌, or_else, Dict, get, put, join,
  sort, str_leb, ◌⧺◌,
}

pub data Reason : Type 0 where
  not_observed as_expected completed waiting in_progress unknown error : Reason

-- `metav1.ConditionStatus`
pub data ConditionStatus : Type 0 where
  is_true is_false is_unknown : ConditionStatus

-- the table `conditionPriority`
abbrev pub condition_priority : Reason → ℕ
condition_priority not_observed = 0
condition_priority as_expected = 1
condition_priority completed = 2
condition_priority waiting = 3
condition_priority in_progress = 4
condition_priority unknown = 5
condition_priority error = 6

pub record Condition : Type 0 where
  pub status : ConditionStatus
  pub reason : Reason
  pub errors : List String
  pub message : List String

abbrev pub Conditions : Type 0
Conditions = Dict Condition

abbrev pub initial : Condition
initial = record { status = is_unknown; reason = not_observed; errors = []; message = [] }

abbrev pub applied : String
applied = "Applied"

abbrev pub available : String
available = "Available"

abbrev pub configured : String
configured = "Configured"

unfoldable pub new : Conditions
new = (applied, initial) ∷ (available, initial) ∷ (configured, initial) ∷ []

-- The condition of a type. A missing one is created, which the callers' `put` does.
abbrev pub get_cond : Conditions → String → Condition
get_cond c cond_type = or_else initial (get c cond_type)

-- the shared text of the `Add…` methods: the message is kept, the rest changes if it is more urgent
abbrev pub raise : Condition → String → Reason → ConditionStatus → Condition
raise ct message reason status =
    let ct' = record ct { message = ct.message ++ message ∷ [] } in
    if ltb (condition_priority ct.reason) (condition_priority reason)
    then record ct' { status = status; reason = reason }
    else ct'

unfoldable pub add_success : Conditions → String → String → Conditions
add_success c cond_type message =
    put c cond_type (raise (get_cond c cond_type) message as_expected is_true)

unfoldable pub add_completed : Conditions → String → String → Conditions
add_completed c cond_type message =
    put c cond_type (raise (get_cond c cond_type) message completed is_true)

unfoldable pub add_waiting : Conditions → String → String → Conditions
add_waiting c cond_type message =
    put c cond_type (raise (get_cond c cond_type) message waiting is_false)

unfoldable pub add_in_progress : Conditions → String → String → Conditions
add_in_progress c cond_type message =
    put c cond_type (raise (get_cond c cond_type) message in_progress is_false)

unfoldable pub add_error : Conditions → String → String → Conditions
add_error c cond_type err =
    put c cond_type (raise (get_cond c cond_type) ("Error: " ⧺ err) error is_false)

unfoldable pub add_unknown : Conditions → String → String → Conditions
add_unknown c cond_type message =
    put c cond_type (raise (get_cond c cond_type) message unknown is_unknown)

-- `metav1.Condition`, as far as it is set here
pub record MetaCondition : Type 0 where
  pub cond_type : String
  pub status : ConditionStatus
  pub reason : Reason
  pub message : String
  pub observed_generation : ℕ

abbrev pub to_meta : ℕ → String × Condition → MetaCondition
to_meta generation (k, v) = record {
  cond_type = k;
  status = v.status;
  reason = v.reason;
  message = join "\n" v.message;
  observed_generation = generation;
}

abbrev pub by_type : MetaCondition → MetaCondition → Bool
by_type a b = str_leb a.cond_type b.cond_type

unfoldable pub to_conditions : Conditions → ℕ → List MetaCondition
to_conditions c generation = sort by_type (map (to_meta generation) c)
