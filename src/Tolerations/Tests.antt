-- ===== src/Tolerations/Tests.antt =====
-- Three lists of tolerations, for pkg/utils/tolerations/tolerations.go. A toleration is its key and
-- the number of seconds.
use piraeus_operator.Base.{
  String, Bool, true, List, [], ◌∷◌, ℕ, some, ◌≡◌, refl, ◌∙◌, arith, ◌==◌, ==-symm, eq_iff, length,
  find_first,
}
use piraeus_operator.Tolerations.{
  replace_matching, add_toleration, add_tolerations, add_lists, merge_tolerations,
}
use piraeus_operator.Tolerations.Later.{merge_tolerations-length, merge_tolerations-find}

abbrev Sample : Type 0
Sample = String × ℕ

abbrev same_key : Sample → Sample → Bool
same_key a b = a.0 == b.0

same_key_symm : (a b : Sample) → same_key a b ≡ true → same_key b a ≡ true
same_key_symm a b h = ==-symm b.0 a.0 ∙ h

same_key_trans : (a b c : Sample) → same_key a b ≡ true → same_key b c ≡ true → same_key a c ≡ true
same_key_trans a b c h k = grind (arith, eq_iff a.0 b.0, eq_iff b.0 c.0, eq_iff a.0 c.0)

abbrev first : List Sample
first = ("not-ready", 300) ∷ ("unreachable", 300) ∷ []

abbrev more : List (List Sample)
more = (("unreachable", 30) ∷ ("disk", 0) ∷ []) ∷ (("unreachable", 60) ∷ []) ∷ []

merged :
    merge_tolerations same_key (first ∷ more)
    ≡ ("not-ready", 300) ∷ ("unreachable", 60) ∷ ("disk", 0) ∷ []
unfolding replace_matching add_toleration add_tolerations add_lists merge_tolerations
merged = refl

merge_tolerations-find_example :
    find_first (same_key ("unreachable", 0)) (merge_tolerations same_key (first ∷ more))
    ≡ some ("unreachable", 60)
merge_tolerations-find_example =
    merge_tolerations-find same_key same_key_symm same_key_trans ("unreachable", 0) first more

merge_tolerations-length_example : length (merge_tolerations same_key (first ∷ more)) ≡ 3
merge_tolerations-length_example =
    merge_tolerations-length same_key same_key_symm same_key_trans first more
