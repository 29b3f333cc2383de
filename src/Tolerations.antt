-- ===== src/Tolerations.antt =====
-- pkg/utils/tolerations/tolerations.go: `MergeTolerations`. A toleration is of a type of
-- Kubernetes; `matches` is its `MatchToleration`.
use piraeus_operator.Base.{Bool, true, false, List, [], ◌∷◌, ◌++◌, if◌then◌else◌}
pub mod Later
mod Tests

module _ {Toleration : Type 0} (matches : Toleration → Toleration → Bool) where
  -- The loop over `result`, which it changes in place, and `updated`.
  unfoldable pub replace_matching : Toleration → List Toleration → List Toleration × Bool
  replace_matching t [] = ([], false)
  replace_matching t (r ∷ result) =
      let rest = replace_matching t result in
      if matches t r then (t ∷ rest.0, true) else (r ∷ rest.0, rest.1)

  unfoldable pub add_toleration : List Toleration → Toleration → List Toleration
  add_toleration result t =
      let replaced = replace_matching t result in
      if replaced.1 then replaced.0 else replaced.0 ++ (t ∷ [])

  -- The loop over `toAdd`.
  unfoldable pub add_tolerations : List Toleration → List Toleration → List Toleration
  add_tolerations result [] = result
  add_tolerations result (t ∷ ts) = add_tolerations (add_toleration result t) ts

  -- The loop over `tolerations[1:]`.
  unfoldable pub add_lists : List Toleration → List (List Toleration) → List Toleration
  add_lists result [] = result
  add_lists result (to_add ∷ more) = add_lists (add_tolerations result to_add) more

  -- The nil slice and the empty one are the same list.
  unfoldable pub merge_tolerations : List (List Toleration) → List Toleration
  merge_tolerations [] = []
  merge_tolerations (first ∷ more) = add_lists first more
