-- ===== src/FieldPath/Paths.antt =====
-- `SplitMaybeSubscriptedPath` of pkg/utils/fieldpath/fieldpath.go and the printing of such a path.
use piraeus_operator.Base.{
  String, Bool, true, false, Option, none, some, ◌≡◌, ◌≢◌, refl, ap, ◌∙◌, subst, ◌⧺◌, ◌==◌,
  cut_suffix, cut, cut_suffix-append, cut_suffix_sound, cut_sound, cut-join, Bool-cases, inl, inr,
  ne→test, test→ne, arith,
}
use text.Mathlib.TextLemmas.{append_assoc}
use piraeus_operator.FieldPath.{split_at_bracket, split_before, split_maybe_subscripted_path}

-- A path with a subscript, as it is written.
abbrev pub subscripted_path : String → String → String
subscripted_path path subscript = path ⧺ ("['" ⧺ subscript) ⧺ "']"

-- A path that is not empty and holds no `['` is split from any subscript that is written behind it.
pub split-subscripted_path :
    (path subscript : String)
    → path ≢ ""
    → cut "['" path ≡ none
    → split_maybe_subscripted_path (subscripted_path path subscript) ≡ (path, subscript, true)
unfolding split_maybe_subscripted_path
split-subscripted_path path subscript filled plain =
    ap (split_before (subscripted_path path subscript))
      (cut_suffix-append (path ⧺ ("['" ⧺ subscript)) "']")
    ∙ ap (split_at_bracket (subscripted_path path subscript))
        (cut-join "['" path subscript refl plain)
    ∙ rw (ne→test path "" filled) refl

bracket_sound :
    (fp path subscript : String) (o : Option (String × String))
    → split_at_bracket fp o ≡ (path, subscript, true)
    → (o ≡ some (path, subscript)) × path ≢ ""
bracket_sound fp path subscript none h = absurd (ground (arith, ap (λ q. q.2) h))
bracket_sound fp path subscript (some (p, s)) h = elim (Bool-cases (p == "")) [
  | inl e ↦
      let h' : Path (String × String × Bool) (fp, "", false) (path, subscript, true) = rw e at h in
      absurd (ground (arith, ap (λ (q : String × String × Bool). q.2) h'))
  | inr e ↦
      let h' : Path (String × String × Bool) (p, s, true) (path, subscript, true) = rw e at h in
      let same : p ≡ path = ap (λ (q : String × String × Bool). q.0) h' in
      let same' : s ≡ subscript = ap (λ (q : String × String × Bool). q.1) h' in
      (rw (same, same') refl, subst (λ x. x ≢ "") same (test→ne p "" e))
]

before_sound :
    (fp path subscript : String) (o : Option String)
    → split_before fp o ≡ (path, subscript, true)
    → (s : String) × (o ≡ some s) × (cut "['" s ≡ some (path, subscript)) × path ≢ ""
before_sound fp path subscript none h =
    absurd (ground (arith, ap (λ (q : String × String × Bool). q.2) h))
before_sound fp path subscript (some s) h =
    let (e, filled) = bracket_sound fp path subscript (cut "['" s) h in (s, refl, e, filled)

-- What is split off is what was written: the path is not empty, and printing both parts gives the
-- text back.
pub subscripted_path-split :
    (field_path path subscript : String)
    → split_maybe_subscripted_path field_path ≡ (path, subscript, true)
    → (field_path ≡ subscripted_path path subscript) × path ≢ ""
unfolding split_maybe_subscripted_path
subscripted_path-split fp path subscript h =
    let (s, e, e', filled) = before_sound fp path subscript (cut_suffix "']" fp) h in
    let whole = cut_suffix_sound "']" fp s e in
    let inner = cut_sound "['" s path subscript e' in
    (whole ∙ ap (λ t. t ⧺ "']") (inner ∙ append_assoc path "['" subscript), filled)
