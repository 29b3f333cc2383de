-- ===== src/Cluster/Trace.antt =====
-- Exactly which calls an action makes where it does not fail.
use mathlib.Core.List.{append-nil, append_assoc}
use piraeus_operator.Base.{String, List, [], ◌∷◌, ◌++◌, Option, none, some, ◌≡◌, refl, sym, ◌∙◌, ap}
use piraeus_operator.Cluster.{Call, ApiError}
use piraeus_operator.Cluster.Effect.{
  Api, M, Log, Result, ok, err, pure, continue, ◌>>=◌, ◌>>◌, attempt, fail_if, wrap_error, wrapped,
}

abbrev pub IsDoneWith : {A : Type 0} → Result A × Log → Log → Type 0
IsDoneWith (ok a, log) want = log ≡ want
IsDoneWith (err e, log) want = Unit

-- Where the action does not fail it makes these calls, in their order.
pub record Traces {A : Type 0} (m : M A) (calls : List Call) : Type 0 where
  pub at : (log : Log) → IsDoneWith (m log) (log ++ calls)

module _ {A : Type 0} where
  pub Traces-pure : (a : A) → Traces (pure a) []
  Traces-pure a = record { at = λ log. sym (append-nil log) }

  wrap_error-IsDoneWith :
      (prefix : String) (p : Result A × Log) (want : Log)
      → IsDoneWith p want
      → IsDoneWith (wrap_error prefix p) want
  wrap_error-IsDoneWith prefix (ok a, log) want h = h
  wrap_error-IsDoneWith prefix (err e, log) want h = tt

  pub Traces-wrapped :
      (prefix : String) (m : M A) (calls : List Call)
      → Traces m calls
      → Traces (wrapped prefix m) calls
  Traces-wrapped prefix m calls k = record {
    at = λ log. wrap_error-IsDoneWith prefix (m log) (log ++ calls) (k.at log);
  }

pub Traces-attempt : (api : Api) (c : Call) → Traces (attempt api c) (c ∷ [])
Traces-attempt api c = record { at = λ log. refl }

pub Traces-fail_if : (o : Option ApiError) → Traces (fail_if o) []
Traces-fail_if none = Traces-pure tt
Traces-fail_if (some e) = record { at = λ log. tt }

module _ {A B : Type 0} where
  continue-IsDoneWith :
      (f : A → M B) (p : Result A × Log) (log : Log) (first next : List Call)
      → IsDoneWith p (log ++ first)
      → ((a : A) → Traces (f a) next)
      → IsDoneWith (continue f p) (log ++ (first ++ next))
  continue-IsDoneWith f (err e, mid) log first next h k = tt
  continue-IsDoneWith f (ok a, mid) log first next h k =
      moved (f a mid) (ap (λ l. l ++ next) h ∙ append_assoc log first next) ((k a).at mid)
    where
      moved :
          (p : Result B × Log) {want want' : Log}
          → want ≡ want'
          → IsDoneWith p want
          → IsDoneWith p want'
      moved (ok b, l) e g = g ∙ e
      moved (err x, l) e g = tt

  pub Traces-bind :
      (m : M A) (f : A → M B) (first next : List Call)
      → Traces m first
      → ((a : A) → Traces (f a) next)
      → Traces (m >>= f) (first ++ next)
  Traces-bind m f first next h k = record {
    at = λ log. continue-IsDoneWith f (m log) log first next (h.at log) k;
  }

  pub Traces-then :
      (m : M A) (n : M B) (first next : List Call)
      → Traces m first
      → Traces n next
      → Traces (m >> n) (first ++ next)
  Traces-then m n first next h k = record {
    at = λ log. continue-IsDoneWith (λ _. n) (m log) log first next (h.at log) (λ _. k);
  }
