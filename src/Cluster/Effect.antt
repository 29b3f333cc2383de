-- ===== src/Cluster/Effect.antt =====
-- Actions that call an API. What a call returns may depend on all calls before it, so another actor
-- may change the cluster between any two of them.
use piraeus_operator.Base.{
  ℕ, String, Bool, List, [], ◌∷◌, ◌++◌, Option, none, some, ◌⧺◌, if◌then◌else◌,
}
use piraeus_operator.Cluster.{
  LinstorSatellite, PersistentVolume, VolumeAttachment, Node, NodeSelector, ResourceGroup,
  ResourceDefinition, Resource, Machine, Call, ApiError, join_errors,
}

pub data Result (A : Type 0) : Type 0 where
  ok : A → Result A
  err : ApiError → Result A

abbrev pub Log : Type 0
Log = List Call

-- Names that the libraries fix.
pub record Names : Type 0 where
  pub namespc_auxiliary : String
  pub csi_driver_name : String
  pub override_annotation_prefix : String
  pub volume_context_marker : String
  pub remote_access_policy_opts : String
  pub key_rsc_migrate_from : String
  pub flag_diskless : String
  pub flag_evacuate : String
  pub pre_drain_prefix : String
  pub pre_terminate_prefix : String
  pub cluster_namespace_annotation : String
  pub machine_annotation : String

-- The two APIs, the clock and the scheduler's matching, none of which is the operator's.
pub record Api : Type 0 where
  pub names : Names
  pub attachments : Log → Result (List VolumeAttachment)
  pub nodes : Log → Result (List Node)
  pub volumes : Log → Result (List PersistentVolume)
  pub satellites : Log → Result (List LinstorSatellite)
  pub groups : Log → Result (List ResourceGroup)
  pub definitions : Log → Result (List ResourceDefinition)
  pub resources : String → Log → List Resource × Option ApiError
  pub snapshots : String → Log → List String × Option ApiError
  pub synced_on_all : String → Log → Result Bool
  pub outcome : Call → Log → Option ApiError
  pub now : Log → ℕ
  pub parse_time : String → Result ℕ
  pub format_time : ℕ → String
  pub format_duration : ℕ → String
  pub matches : Node → NodeSelector → Bool
  pub machine : String → String → Log → Result Machine
  pub is_no_match : ApiError → Bool
  pub has_reference : Machine → Bool

-- An action returns or fails; the calls that it made stay made.
abbrev pub M : Type 0 → Type 0
M A = Log → Result A × Log

abbrev pub pure : {A : Type 0} → A → M A
pure a log = (ok a, log)

abbrev pub throw : {A : Type 0} → ApiError → M A
throw e log = (err e, log)

abbrev pub continue : {A B : Type 0} → (A → M B) → Result A × Log → Result B × Log
continue f (ok a, log) = f a log
continue f (err e, log) = (err e, log)

infixl 5 ◌>>=◌ ◌>>◌
abbrev pub ◌>>=◌ : {A B : Type 0} → M A → (A → M B) → M B
◌>>=◌ m f log = continue f (m log)

abbrev pub ◌>>◌ : {A B : Type 0} → M A → M B → M B
◌>>◌ m k log = continue (λ _. k) (m log)

-- A call whose answer is a result.
abbrev pub ask : {A : Type 0} → Call → (Log → Result A) → M A
ask c answer log = (answer log, log ++ c ∷ [])

-- A call that changes something. Its error is handed on as a value.
abbrev pub attempt : Api → Call → M (Option ApiError)
attempt api c log = (ok (api.outcome c log), log ++ c ∷ [])

abbrev pub record_event : Call → M (Unit {0})
record_event c log = (ok tt, log ++ c ∷ [])

-- `err != nil && !IsNotFound(err)`
abbrev pub real_error : Option ApiError → Option ApiError
real_error none = none
real_error (some e) = if e.is_not_found then none else some e

abbrev pub fail_if : Option ApiError → M (Unit {0})
fail_if none = pure tt
fail_if (some e) = throw e

-- `return "", true, errors.Join(errs...)`, where an empty list is no error
abbrev pub fail_joined : List ApiError → M (Unit {0})
fail_joined [] = pure tt
fail_joined (e ∷ errs) = throw (join_errors (e ∷ errs))

-- `fmt.Errorf("...: %w", err)`
abbrev pub wrap : String → ApiError → ApiError
wrap prefix e = record { is_not_found = e.is_not_found; text = prefix ⧺ ": " ⧺ e.text }

abbrev pub wrap_error : {A : Type 0} → String → Result A × Log → Result A × Log
wrap_error prefix (ok a, log) = (ok a, log)
wrap_error prefix (err e, log) = (err (wrap prefix e), log)

-- an action whose error gets a prefix
abbrev pub wrapped : {A : Type 0} → String → M A → M A
wrapped prefix m log = wrap_error prefix (m log)

-- the error of an action, as a value
abbrev pub error_of : {A : Type 0} → Result A × Log → Result (Option ApiError) × Log
error_of (ok a, log) = (ok none, log)
error_of (err e, log) = (ok (some e), log)

abbrev pub caught : {A : Type 0} → M A → M (Option ApiError)
caught m log = error_of (m log)
