-- ===== src/Cluster/Answers.antt =====
-- What an action answers where it does not fail.
use piraeus_operator.Base.{◌≡◌, refl, ap, ◌⊎◌, inl, inr}
use piraeus_operator.Cluster.{ApiError}
use piraeus_operator.Cluster.Effect.{M, Log, Result, ok, err, pure, continue, ◌>>=◌, ◌>>◌}

abbrev pub Ends : {A : Type 0} → (A → Type 0) → Result A → Type 0
Ends P (ok a) = P a
Ends P (err e) = Unit

-- Whatever calls were made before, an answer has the property.
pub record Answers {A : Type 0} (P : A → Type 0) (m : M A) : Type 0 where
  pub at : (log : Log) → Ends P (m log).0

module _ {A : Type 0} {P : A → Type 0} where
  pub Answers-pure : (a : A) → P a → Answers P (pure a)
  Answers-pure a h = record { at = λ log. h }

module _ {A : Type 0} {P Q : A → Type 0} where
  Ends-imp : (r : Result A) → ((a : A) → P a → Q a) → Ends P r → Ends Q r
  Ends-imp (ok a) f h = f a h
  Ends-imp (err e) f h = tt

  pub Answers-imp : (m : M A) → ((a : A) → P a → Q a) → Answers P m → Answers Q m
  Answers-imp m f k = record { at = λ log. Ends-imp (m log).0 f (k.at log) }

module _ {A B : Type 0} {P : A → Type 0} {Q : B → Type 0} where
  Ends-continue :
      (f : A → M B) (r : Result A × Log)
      → Ends P r.0
      → ((a : A) → P a → Answers Q (f a))
      → Ends Q (continue f r).0
  Ends-continue f (ok a, log) h k = (k a h).at log
  Ends-continue f (err e, log) h k = tt

  pub Answers-bind :
      (m : M A) (f : A → M B)
      → Answers P m
      → ((a : A) → P a → Answers Q (f a))
      → Answers Q (m >>= f)
  Answers-bind m f h k = record { at = λ log. Ends-continue f (m log) (h.at log) k }

module _ {A B : Type 0} {Q : B → Type 0} where
  Ends-after :
      (f : A → M B) (r : Result A × Log) → ((a : A) → Answers Q (f a)) → Ends Q (continue f r).0
  Ends-after f (ok a, log) k = (k a).at log
  Ends-after f (err e, log) k = tt

  -- whatever the first action answers
  pub Answers-after : (m : M A) (f : A → M B) → ((a : A) → Answers Q (f a)) → Answers Q (m >>= f)
  Answers-after m f k = record { at = λ log. Ends-after f (m log) k }

  pub Answers-then : (m : M A) (n : M B) → Answers Q n → Answers Q (m >> n)
  Answers-then m n k = record { at = λ log. Ends-after (λ _. n) (m log) (λ _. k) }

module _ {A : Type 0} where
  pub Result-cases : (r : Result A) → ((a : A) × (r ≡ ok a)) ⊎ ((e : ApiError) × (r ≡ err e))
  Result-cases (ok a) = inl (a, refl)
  Result-cases (err e) = inr (e, refl)

  abbrev ok_or : A → Result A → A
  ok_or a (ok b) = b
  ok_or a (err e) = a

  pub ok-injective : (a b : A) → ok a ≡ ok b → a ≡ b
  ok-injective a b e = ap (ok_or a) e
