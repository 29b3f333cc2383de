-- ===== src/Conditions/Priority.antt =====
-- What a sequence of `Add…` calls on pkg/conditions/conditions.go leaves behind.
use Prim.Native.Nat.{max}
use mathlib.Core.List.{append-nil, append_assoc}
use piraeus_operator.Base.{
  ℕ, String, Bool, List, [], ◌∷◌, ◌++◌, ◌≡◌, refl, ap, ◌∙◌, arith, ◌==◌, eq_iff, Bool-cases, inl,
  inr, if◌then◌else◌, get, dict_laws, ◌⧺◌, Shuffle, done, keep, swap, then_by,
}
use piraeus_operator.Conditions.{
  new, Reason, not_observed, as_expected, completed, waiting, in_progress, unknown, error,
  ConditionStatus, is_true, is_false, is_unknown, Condition, Conditions, get_cond, raise,
  condition_priority, add_success, add_completed, add_waiting, add_in_progress, add_error,
  add_unknown,
}

-- One call of an `Add…` method: the method, the condition's type and the text.
pub data Call : Type 0 where
  success complete wait progress fail unclear : String → String → Call

unfoldable pub perform : Conditions → Call → Conditions
perform c (success t m) = add_success c t m
perform c (complete t m) = add_completed c t m
perform c (wait t m) = add_waiting c t m
perform c (progress t m) = add_in_progress c t m
perform c (fail t m) = add_error c t m
perform c (unclear t m) = add_unknown c t m

unfoldable pub perform_all : Conditions → List Call → Conditions
perform_all c [] = c
perform_all c (x ∷ xs) = perform_all (perform c x) xs

abbrev pub target : Call → String
target (success t m) = t
target (complete t m) = t
target (wait t m) = t
target (progress t m) = t
target (fail t m) = t
target (unclear t m) = t

-- The severity that a call reports, from 1 (all is well) to 6 (an error).
abbrev pub severity : Call → ℕ
severity (success t m) = 1
severity (complete t m) = 2
severity (wait t m) = 3
severity (progress t m) = 4
severity (unclear t m) = 5
severity (fail t m) = 6

-- The line that a call adds to the condition's message.
abbrev pub line : Call → String
line (success t m) = m
line (complete t m) = m
line (wait t m) = m
line (progress t m) = m
line (unclear t m) = m
line (fail t m) = "Error: " ⧺ m

abbrev pub worst : String → List Call → ℕ
worst t [] = 0
worst t (x ∷ xs) = if target x == t then max (severity x) (worst t xs) else worst t xs

abbrev pub lines : String → List Call → List String
lines t [] = []
lines t (x ∷ xs) = let rest = lines t xs in if target x == t then line x ∷ rest else rest

abbrev pub level : Conditions → String → ℕ
level c t = condition_priority (get_cond c t).reason

-- The status that goes with each reason.
abbrev pub status_for : Reason → ConditionStatus
status_for not_observed = is_unknown
status_for as_expected = is_true
status_for completed = is_true
status_for waiting = is_false
status_for in_progress = is_false
status_for unknown = is_unknown
status_for error = is_false

abbrev pub IsConsistent : Conditions → Type 0
IsConsistent c = (t : String) → (get_cond c t).status ≡ status_for (get_cond c t).reason

abbrev raised : Condition → Call → Condition
raised ct (success t m) = raise ct m as_expected is_true
raised ct (complete t m) = raise ct m completed is_true
raised ct (wait t m) = raise ct m waiting is_false
raised ct (progress t m) = raise ct m in_progress is_false
raised ct (fail t m) = raise ct ("Error: " ⧺ m) error is_false
raised ct (unclear t m) = raise ct m unknown is_unknown

-- A call changes the condition that it names, and no other.
get_cond-perform :
    (c : Conditions) (x : Call) (t : String)
    → get_cond (perform c x) t ≡ (if target x == t then raised (get_cond c t) x else get_cond c t)
unfolding perform add_success add_completed add_waiting add_in_progress add_error add_unknown
get_cond-perform c (success k m) t = simp dict_laws (ground (arith, eq_iff k t))
get_cond-perform c (complete k m) t = simp dict_laws (ground (arith, eq_iff k t))
get_cond-perform c (wait k m) t = simp dict_laws (ground (arith, eq_iff k t))
get_cond-perform c (progress k m) t = simp dict_laws (ground (arith, eq_iff k t))
get_cond-perform c (fail k m) t = simp dict_laws (ground (arith, eq_iff k t))
get_cond-perform c (unclear k m) t = simp dict_laws (ground (arith, eq_iff k t))

level_raised :
    (ct : Condition) (x : Call)
    → condition_priority (raised ct x).reason ≡ max (condition_priority ct.reason) (severity x)
level_raised ct (success t m) = ground arith
level_raised ct x = ground arith

message_raised :
    (ct : Condition) (x : Call) (rest : List String)
    → (raised ct x).message ++ rest ≡ ct.message ++ (line x ∷ rest)
message_raised ct (success t m) rest = ground (arith, append_assoc ct.message (m ∷ []) rest)
message_raised ct (fail t m) rest =
    ground (arith, append_assoc ct.message (("Error: " ⧺ m) ∷ []) rest)
message_raised ct x rest = ground (arith, append_assoc ct.message (line x ∷ []) rest)

-- After any calls, the condition of a type stands at the worst severity that was reported for it,
-- or at its earlier level if that is worse.
pub level-perform_all :
    (c : Conditions) (xs : List Call) (t : String)
    → level (perform_all c xs) t ≡ max (level c t) (worst t xs)
unfolding perform_all
level-perform_all c [] t = omega arith
level-perform_all c (x ∷ xs) t = ground (
  arith,
  level-perform_all (perform c x) xs t,
  get_cond-perform c x t,
  level_raised (get_cond c t) x,
)

-- Every message that was given for a type is kept, in the order of the calls, and no other.
pub message-perform_all :
    (c : Conditions) (xs : List Call) (t : String)
    → (get_cond (perform_all c xs) t).message ≡ (get_cond c t).message ++ lines t xs
unfolding perform_all
message-perform_all c [] t = rw append-nil
message-perform_all c (x ∷ xs) t =
    message-perform_all (perform c x) xs t ∙ simp get_cond-perform (split x)
  where
    split :
        (y : Call)
        → (if target y == t then raised (get_cond c t) y else get_cond c t).message ++ lines t xs
          ≡ (get_cond c t).message ++ lines t (y ∷ xs)
    split y = elim (Bool-cases (target y == t)) [
      | inl e ↦ rw e (message_raised (get_cond c t) y (lines t xs))
      | inr e ↦ rw e
    ]

raised-IsConsistent :
    (ct : Condition) (x : Call)
    → ct.status ≡ status_for ct.reason
    → (raised ct x).status ≡ status_for (raised ct x).reason
raised-IsConsistent ct (success t m) h = ground arith
raised-IsConsistent ct x h = ground arith

perform-IsConsistent : (c : Conditions) (x : Call) → IsConsistent c → IsConsistent (perform c x)
perform-IsConsistent c x h t =
    ground (arith, get_cond-perform c x t, raised-IsConsistent (get_cond c t) x, h t)

-- The status goes with the reason: calls keep it so, for every type, whatever their order.
pub perform_all-IsConsistent :
    (c : Conditions) (xs : List Call) → IsConsistent c → IsConsistent (perform_all c xs)
unfolding perform_all
perform_all-IsConsistent c [] h = h
perform_all-IsConsistent c (x ∷ xs) h =
    perform_all-IsConsistent (perform c x) xs (perform-IsConsistent c x h)

pub new-IsConsistent : IsConsistent new
unfolding new get
new-IsConsistent t = ground arith

worst_comm :
    (p q : Bool) (m n k : ℕ)
    → (if p then max m (if q then max n k else k) else (if q then max n k else k))
      ≡ (if q then max n (if p then max m k else k) else (if p then max m k else k))
worst_comm p q m n k = ground arith

worst-Shuffle : (t : String) {xs ys : List Call} → Shuffle xs ys → worst t xs ≡ worst t ys
worst-Shuffle t done = refl
worst-Shuffle t (keep a s) =
    ap (λ k. if target a == t then max (severity a) k else k) (worst-Shuffle t s)
worst-Shuffle t (swap a b xs) =
    worst_comm (target a == t) (target b == t) (severity a) (severity b) (worst t xs)
worst-Shuffle t (then_by s u) = worst-Shuffle t s ∙ worst-Shuffle t u

condition_priority_inj : (a b : Reason) → condition_priority a ≡ condition_priority b → a ≡ b
condition_priority_inj a b h = ground arith

-- The reason and the status of every type are the same, in whatever order the calls are made.
pub perform_all-Shuffle :
    (c : Conditions) {xs ys : List Call} (t : String)
    → IsConsistent c
    → Shuffle xs ys
    → ((get_cond (perform_all c xs) t).reason ≡ (get_cond (perform_all c ys) t).reason)
      × ((get_cond (perform_all c xs) t).status ≡ (get_cond (perform_all c ys) t).status)
perform_all-Shuffle c {xs} {ys} t h s =
    let same =
      condition_priority_inj (get_cond (perform_all c xs) t).reason
        (get_cond (perform_all c ys) t).reason
        (omega (arith, level-perform_all c xs t, level-perform_all c ys t, worst-Shuffle t s)) in
    (same, cc (same, perform_all-IsConsistent c xs h t, perform_all-IsConsistent c ys h t))
