-- ===== src/Cluster/Calls.antt =====
-- Which calls an action makes: one rule for each way to build an action.
use mathlib.Core.List.{append-nil, append_assoc}
use piraeus_operator.Base.{
  Bool, true, false, List, [], ◌∷◌, ◌++◌, Option, none, some, ◌≡◌, refl, sym, ◌∙◌, ap, All, All-imp,
  All-append, if◌then◌else◌, String,
}
use piraeus_operator.Cluster.{Call, ApiError, join_errors}
use piraeus_operator.Cluster.Effect.{
  Api, M, Log, Result, ok, err, pure, throw, continue, ◌>>=◌, ◌>>◌, ask, attempt, record_event,
  fail_if, fail_joined, wrap_error, wrapped, error_of, caught,
}

-- A log is another with calls of the kind `P` added.
abbrev pub Grows : (Call → Type 0) → Log → Log → Type 0
Grows P before after = (new : List Call) × (after ≡ before ++ new) × All P new

pub Grows-trans : {P : Call → Type 0} (a b c : Log) → Grows P a b → Grows P b c → Grows P a c
Grows-trans {P} a b c (new, e, h) (more, e', k) =
    (new ++ more, e' ∙ ap (λ l. l ++ more) e ∙ append_assoc a new more, All-append P new more h k)

-- The log grows by calls of the kind `P`, however the action ends.
pub record Calls {A : Type 0} (P : Call → Type 0) (m : M A) : Type 0 where
  pub at : (log : Log) → Grows P log (m log).1

module _ {A : Type 0} {P : Call → Type 0} where
  pub Calls-pure : (a : A) → Calls P (pure a)
  Calls-pure a = record { at = λ log. ([], sym (append-nil log), tt) }

  pub Calls-throw : (e : ApiError) → Calls P (throw {A = A} e)
  Calls-throw e = record { at = λ log. ([], sym (append-nil log), tt) }

  -- An action that looks at the log and calls nothing.
  pub Calls-look : (f : Log → Result A) → Calls P (λ log. (f log, log))
  Calls-look f = record { at = λ log. ([], sym (append-nil log), tt) }

  pub Calls-ask : (c : Call) (f : Log → Result A) → P c → Calls P (ask c f)
  Calls-ask c f p = record { at = λ log. (c ∷ [], refl, (p, tt)) }

  pub Calls-if : (b : Bool) (m n : M A) → Calls P m → Calls P n → Calls P (if b then m else n)
  Calls-if true m n km kn = km
  Calls-if false m n km kn = kn

module _ {P : Call → Type 0} where
  pub Calls-attempt : (api : Api) (c : Call) → P c → Calls P (attempt api c)
  Calls-attempt api c p = record { at = λ log. (c ∷ [], refl, (p, tt)) }

  pub Calls-event : (c : Call) → P c → Calls P (record_event c)
  Calls-event c p = record { at = λ log. (c ∷ [], refl, (p, tt)) }

  pub Calls-fail_if : (o : Option ApiError) → Calls P (fail_if o)
  Calls-fail_if none = Calls-pure tt
  Calls-fail_if (some e) = Calls-throw e

  pub Calls-fail_joined : (errs : List ApiError) → Calls P (fail_joined errs)
  Calls-fail_joined [] = Calls-pure tt
  Calls-fail_joined (e ∷ errs) = Calls-throw (join_errors (e ∷ errs))

module _ {A B : Type 0} {P : Call → Type 0} where
  pub Calls-continue :
      (f : A → M B)
      → ((a : A) → Calls P (f a))
      → (before : Log) (r : Result A) (mid : List Call) → All P mid
      → (new : List Call) × ((continue f (r, before ++ mid)).1 ≡ before ++ new) × All P new
  Calls-continue f kf before (ok a) mid h =
      let (more, e, k) = (kf a).at (before ++ mid) in
      (mid ++ more, e ∙ append_assoc before mid more, All-append P mid more h k)
  Calls-continue f kf before (err e) mid h = (mid, refl, h)

  pub Calls-bind :
      (m : M A) (f : A → M B) → Calls P m → ((a : A) → Calls P (f a)) → Calls P (m >>= f)
  Calls-bind m f km kf = record {
    at = λ log.
        let (mid, e, h) = km.at log in
        let (new, e', k) = Calls-continue f kf log (m log).0 mid h in
        (new, ap (λ l. (continue f ((m log).0, l)).1) e ∙ e', k);
  }

  pub Calls-then : (m : M A) (n : M B) → Calls P m → Calls P n → Calls P (m >> n)
  Calls-then m n km kn = record {
    at = λ log.
        let (mid, e, h) = km.at log in
        let (new, e', k) = Calls-continue (λ _. n) (λ _. kn) log (m log).0 mid h in
        (new, ap (λ l. (continue (λ _. n) ((m log).0, l)).1) e ∙ e', k);
  }

pub Grows-imp :
    {P Q : Call → Type 0} (a b : Log) → ((c : Call) → P c → Q c) → Grows P a b → Grows Q a b
Grows-imp a b f (new, e, h) = (new, e, All-imp f new h)

pub Calls-imp :
    {A : Type 0} {P Q : Call → Type 0} (m : M A) → ((c : Call) → P c → Q c) → Calls P m → Calls Q m
Calls-imp m f k = record { at = λ log. Grows-imp log (m log).1 f (k.at log) }

module _ {A : Type 0} {P : Call → Type 0} where
  error_of-Grows : (log : Log) (p : Result A × Log) → Grows P log p.1 → Grows P log (error_of p).1
  error_of-Grows log (ok a, after) h = h
  error_of-Grows log (err e, after) h = h

  pub Calls-caught : (m : M A) → Calls P m → Calls P (caught m)
  Calls-caught m k = record { at = λ log. error_of-Grows log (m log) (k.at log) }

  wrap_error-Grows :
      (prefix : String) (log : Log) (p : Result A × Log)
      → Grows P log p.1
      → Grows P log (wrap_error prefix p).1
  wrap_error-Grows prefix log (ok a, after) h = h
  wrap_error-Grows prefix log (err e, after) h = h

  pub Calls-wrapped : (prefix : String) (m : M A) → Calls P m → Calls P (wrapped prefix m)
  Calls-wrapped prefix m k = record { at = λ log. wrap_error-Grows prefix log (m log) (k.at log) }

pub ruleset calls_rules = (
  Calls-pure, Calls-throw, Calls-look, Calls-ask, Calls-if, Calls-attempt, Calls-event,
  Calls-fail_if, Calls-fail_joined, Calls-bind, Calls-then, Calls-caught, Calls-wrapped,
)
