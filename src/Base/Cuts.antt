-- ===== src/Base/Cuts.antt =====
-- Go's cutting of texts: `strings.CutPrefix`, `CutSuffix`, `SplitN` in two and `ReplaceAll`, of
-- package strings.
use Prim.Native.Nat.{ℕ, zero, suc, ◌-◌}
use Prim.Native.Char.{Char, code}
use Prim.Native.String.{String}
use mathlib.Core.Path.{◌≡◌, refl, sym, ap, subst, ◌∙◌}
use mathlib.Core.Logic.{inl, inr}
use mathlib.Core.Bool.{Bool, true, false, ◌||◌, ◌&&◌}
use mathlib.Core.Option.{Option, none, some}
use mathlib.Core.List.{List, [], ◌∷◌, map}
use native.Mathlib.Omega.{arith}
use text.Mathlib.Text.{◌==◌, starts_with}
use text.Mathlib.TextLemmas.{nil-append, cons-append, length-cons, length-append}
use text.Mathlib.TextPositions.{eq_refl}
use Prim.Native.String.{count}
use text.Mathlib.TextEquality.{eq_iff, Char-path}
use piraeus_operator.Base.Tests.{eqb, if◌then◌else◌, Bool-cases, Option-cases, ne→test, or_else}
use piraeus_operator.Base.Text.{◌⧺◌}
use piraeus_operator.Base.GoPath.{size, between, onto_first}

-- What stands after a prefix.
unfoldable pub cut_prefix : String → String → Option String
cut_prefix String.[] s = some s
cut_prefix (String.◌∷◌ p ps) String.[] = none
cut_prefix (String.◌∷◌ p ps) (String.◌∷◌ c s) = elim (eqb (code p) (code c)) [
  | true ↦ cut_prefix ps s
  | false ↦ none
]

abbrev put_front : Char → Option String → Option String
put_front c none = none
put_front c (some s) = some (String.◌∷◌ c s)

-- What stands before a suffix.
unfoldable pub cut_suffix : String → String → Option String
cut_suffix suffix String.[] = if suffix == "" then some "" else none
cut_suffix suffix (String.◌∷◌ c s) =
    let rest = put_front c (cut_suffix suffix s) in
    if String.◌∷◌ c s == suffix then some "" else rest

abbrev put_first : Char → Option (String × String) → Option (String × String)
put_first c none = none
put_first c (some (before, after)) = some (String.◌∷◌ c before, after)

-- What stands before and after the first `sep`, which is not empty.
unfoldable pub cut : String → String → Option (String × String)
unfolding cut_prefix
cut sep String.[] = none
cut sep (String.◌∷◌ c s) =
    let rest = put_first c (cut sep s) in
    elim (cut_prefix sep (String.◌∷◌ c s)) [ none ↦ rest | some after ↦ some ("", after) ]

-- `strings.ReplaceAll` from a place on, for an `old` that is not empty; some characters are part of
-- the last replacement.
unfoldable pub replace_from : String → String → ℕ → String → String
replace_from old new n String.[] = ""
replace_from old new (suc n) (String.◌∷◌ c s) = replace_from old new n s
replace_from old new zero (String.◌∷◌ c s) = elim (starts_with (String.◌∷◌ c s) old) [
  | true ↦ new ⧺ replace_from old new (size old - 1) s
  | false ↦ String.◌∷◌ c (replace_from old new zero s)
]

abbrev pub replace_all : String → String → String → String
replace_all s old new = replace_from old new 0 s

-- `unicode.IsSpace`
abbrev pub is_space : ℕ → Bool
is_space n =
    between 9 13 n
    || eqb n 32
    || eqb n 133
    || eqb n 160
    || eqb n 5760
    || between 8192 8202 n
    || between 8232 8233 n
    || eqb n 8239
    || eqb n 8287
    || eqb n 12288

abbrev pub trim_left : String → String
trim_left String.[] = ""
trim_left (String.◌∷◌ c s) = if is_space (code c) then trim_left s else String.◌∷◌ c s

abbrev pub trim_right : String → String
trim_right String.[] = ""
trim_right (String.◌∷◌ c s) =
    let rest = trim_right s in if rest == "" && is_space (code c) then "" else String.◌∷◌ c rest

-- `strings.TrimSpace`
unfoldable pub trim_space : String → String
trim_space s = trim_right (trim_left s)

-- `strings.Split(s, "\n")`
unfoldable pub lines : String → List String
lines String.[] = "" ∷ []
lines (String.◌∷◌ c s) =
    let rest = lines s in if eqb (code c) 10 then "" ∷ rest else onto_first c rest

line_test : map trim_space (lines " vg1 \nvg2\n") ≡ "vg1" ∷ "vg2" ∷ "" ∷ []
unfolding trim_space lines
line_test = refl

replaced : replace_all "a$1/$2$1" "$1" "xy" ≡ "axy/$2xy"
unfolding replace_from
replaced = refl

cut_test : cut "['" "metadata.labels['a['b" ≡ some ("metadata.labels", "a['b")
unfolding cut cut_prefix
cut_test = refl

code_same : (c : Char) → eqb (code c) (code c) ≡ true
code_same c = ground arith

pub cut_prefix-append : (p s : String) → cut_prefix p (p ⧺ s) ≡ some s
unfolding cut_prefix
cut_prefix-append String.[] s = rw (nil-append s) refl
cut_prefix-append (String.◌∷◌ c p) s =
    rw (cons-append c p s, cut_prefix, code_same c) (cut_prefix-append p s)

pub cut_prefix_sound : (p s r : String) → cut_prefix p s ≡ some r → s ≡ p ⧺ r
unfolding cut_prefix
cut_prefix_sound String.[] s r h = ap (or_else s) h ∙ sym (nil-append r)
cut_prefix_sound (String.◌∷◌ c p) String.[] r h = ground arith
cut_prefix_sound (String.◌∷◌ c p) (String.◌∷◌ d s) r h = elim (Bool-cases (eqb (code c) (code d))) [
  | inl e ↦
      let same : c ≡ d = Char-path c d (ground arith) in
      let h' : cut_prefix p s ≡ some r = rw (cut_prefix, e) at h in
      rw (cons-append c p r, same) (ap (String.◌∷◌ d) (cut_prefix_sound p s r h'))
  | inr e ↦ let h' : none ≡ some r = rw (cut_prefix, e) at h in absurd (ground arith)
]

cut_suffix_whole : (t : String) → cut_suffix t t ≡ some ""
unfolding cut_suffix
cut_suffix_whole String.[] = refl
cut_suffix_whole (String.◌∷◌ c t) = rw (eq_refl (String.◌∷◌ c t)) refl

longer : (c : Char) (s t : String) → (String.◌∷◌ c (s ⧺ t) == t) ≡ false
longer c s t = ne→test _ t (λ e.
    let same : count (String.◌∷◌ c (s ⧺ t)) ≡ count t = ap count e in
    absurd (omega (arith, same, length-cons c (s ⧺ t), length-append s t)))

pub cut_suffix-append : (s t : String) → cut_suffix t (s ⧺ t) ≡ some s
unfolding cut_suffix
cut_suffix-append String.[] t = rw (nil-append t) (cut_suffix_whole t)
cut_suffix-append (String.◌∷◌ c s) t =
    rw (cons-append c s t, longer c s t, cut_suffix-append s t) refl

pub cut_suffix_sound : (t s r : String) → cut_suffix t s ≡ some r → s ≡ r ⧺ t
unfolding cut_suffix
cut_suffix_sound t String.[] r h = elim (Bool-cases (t == "")) [
  | inl e ↦
      let h' : some "" ≡ some r = rw e at h in
      rw (← ap (or_else "") h', nil-append t) (sym ((eq_iff t "").0 e))
  | inr e ↦ let h' : none ≡ some r = rw e at h in absurd (ground arith)
]
cut_suffix_sound t (String.◌∷◌ c s) r h = elim (Bool-cases (String.◌∷◌ c s == t)) [
  | inl e ↦
      let h' : some "" ≡ some r = rw e at h in
      rw (← ap (or_else "") h', nil-append t) ((eq_iff (String.◌∷◌ c s) t).0 e)
  | inr e ↦ elim (Option-cases (cut_suffix t s)) [
    | inl e' ↦ let h' : none ≡ some r = rw (e, e') at h in absurd (ground arith)
    | inr (r', e') ↦
        let h' : some (String.◌∷◌ c r') ≡ some r = rw (e, e') at h in
        rw (← ap (or_else "") h', cons-append c r' t)
          (ap (String.◌∷◌ c) (cut_suffix_sound t s r' e'))
  ]
]

-- The first `sep` after a text without one, where only the start of `sep` is its first character.
pub cut_sound :
    (sep s before after : String) → cut sep s ≡ some (before, after) → s ≡ before ⧺ sep ⧺ after
unfolding cut
cut_sound sep String.[] before after h = absurd (ground arith)
cut_sound sep (String.◌∷◌ c s) before after h =
    elim (Option-cases (cut_prefix sep (String.◌∷◌ c s))) [
      | inl e ↦ elim (Option-cases (cut sep s)) [
        | inl e' ↦
            let h' : Path (Option (String × String)) none (some (before, after)) =
              rw (cut, e, e') at h in
            absurd (ground arith)
        | inr ((b, a), e') ↦
            let h' : some (String.◌∷◌ c b, a) ≡ some (before, after) = rw (cut, e, e') at h in
            let both = ap (or_else ("", "")) h' in
            rw
              (
                ← ap (λ q. q.0) both,
                ← ap (λ q. q.1) both,
                cons-append c b sep,
                cons-append c (b ⧺ sep) a,
              )
              (ap (String.◌∷◌ c) (cut_sound sep s b a e'))
      ]
      | inr (a, e) ↦
          let h' : some ("", a) ≡ some (before, after) = rw (cut, e) at h in
          let both = ap (or_else ("", "")) h' in
          rw (← ap (λ q. q.0) both, ← ap (λ q. q.1) both, nil-append sep)
            (cut_prefix_sound sep (String.◌∷◌ c s) a e)
    ]

module _ (c d : Char) (differ : eqb (code d) (code c) ≡ false) where
  abbrev pub sep_of : String
  sep_of = String.◌∷◌ c (String.◌∷◌ d "")

  prefix_there : (s : String) → cut_prefix sep_of (String.◌∷◌ c (String.◌∷◌ d s)) ≡ some s
  unfolding cut_prefix
  prefix_there s = rw (cut_prefix, code_same c, code_same d) refl

  no_prefix :
      (x : Char) (p s : String)
      → cut_prefix sep_of (String.◌∷◌ x p) ≡ none
      → cut_prefix sep_of (String.◌∷◌ x (p ⧺ String.◌∷◌ c (String.◌∷◌ d s))) ≡ none
  unfolding cut_prefix
  no_prefix x String.[] s h =
      subst (λ t. cut_prefix sep_of (String.◌∷◌ x t) ≡ none)
        (sym (nil-append (String.◌∷◌ c (String.◌∷◌ d s))))
        (elim (Bool-cases (eqb (code c) (code x))) [
          | inl e ↦ rw (cut_prefix, e, differ) refl
          | inr e ↦ rw (cut_prefix, e) refl
        ])
  no_prefix x (String.◌∷◌ y p) s h =
      subst (λ t. cut_prefix sep_of (String.◌∷◌ x t) ≡ none)
        (sym (cons-append y p (String.◌∷◌ c (String.◌∷◌ d s))))
        (elim (Bool-cases (eqb (code c) (code x))) [
          | inl e ↦ elim (Bool-cases (eqb (code d) (code y))) [
            | inl e' ↦ let h' : some p ≡ none = rw (cut_prefix, e, e') at h in absurd (ground arith)
            | inr e' ↦ rw (cut_prefix, e, e') refl
          ]
          | inr e ↦ rw (cut_prefix, e) refl
        ])

  cut-cons_join :
      (p s : String)
      → cut sep_of p ≡ none
      → cut sep_of (p ⧺ String.◌∷◌ c (String.◌∷◌ d s)) ≡ some (p, s)
  unfolding cut
  cut-cons_join String.[] s h =
      subst (λ t. cut sep_of t ≡ some ("", s)) (sym (nil-append (String.◌∷◌ c (String.◌∷◌ d s))))
        (rw (cut, prefix_there s) refl)
  cut-cons_join (String.◌∷◌ x p) s h = elim (Option-cases (cut_prefix sep_of (String.◌∷◌ x p))) [
    | inl e ↦
        subst (λ t. cut sep_of t ≡ some (String.◌∷◌ x p, s))
          (sym (cons-append x p (String.◌∷◌ c (String.◌∷◌ d s))))
          (elim (Option-cases (cut sep_of p)) [
            | inl e' ↦ rw (cut, no_prefix x p s e, cut-cons_join p s e') refl
            | inr (q, e') ↦
                let h' : put_first x (some q) ≡ none = rw (cut, e, e') at h in absurd (ground arith)
          ])
    | inr (a, e) ↦
        let h' : Path (Option (String × String)) (some ("", a)) none = rw (cut, e) at h in
        absurd (ground arith)
  ]

-- Two characters, which differ
abbrev pub IsPair : String → Type 0
IsPair (String.◌∷◌ c (String.◌∷◌ d String.[])) = eqb (code d) (code c) ≡ false
IsPair _ = ⊥

-- Joining two texts around a separator of two characters that differ undoes the cut, where the first
-- has no separator.
pub cut-join :
    (sep p s : String) → IsPair sep → cut sep p ≡ none → cut sep (p ⧺ (sep ⧺ s)) ≡ some (p, s)
cut-join String.[] p s two h = absurd two
cut-join (String.◌∷◌ c String.[]) p s two h = absurd two
cut-join (String.◌∷◌ c (String.◌∷◌ d String.[])) p s two h =
    rw (cons-append c (String.◌∷◌ d "") s, cons-append d "" s, nil-append s)
      (cut-cons_join c d two p s h)
cut-join (String.◌∷◌ c (String.◌∷◌ d (String.◌∷◌ e t))) p s two h = absurd two
