-- ===== src/Conditions/Tests.antt =====
-- pkg/conditions/conditions.go on concrete calls, and each theorem at such calls.
use Prim.Native.Nat.{max}
use piraeus_operator.Base.{
  List, [], ◌∷◌, ◌++◌, ◌≡◌, refl, Shuffle, swap, put, get, IsSorted, str_leb, contains, false, All,
}
use piraeus_operator.Conditions.{
  Conditions, new, get_cond, available, configured, applied, error, to_conditions, add_success,
  add_error, add_waiting, initial,
}
use piraeus_operator.Conditions.Priority.{
  Call, success, wait, fail, perform, perform_all, level, worst, lines, IsConsistent,
  level-perform_all, message-perform_all, perform_all-IsConsistent, perform_all-Shuffle,
  new-IsConsistent,
}
use piraeus_operator.Conditions.Told.{types, HasNoRepeats, IsTold, to_conditions-IsTold}
use piraeus_operator.Conditions.Report.{to_conditions-Shuffle}

abbrev calls : List Call
calls =
    success available "online"
    ∷ fail available "lost"
    ∷ wait configured "later"
    ∷ success available "ok"
    ∷ []

abbrev swapped : List Call
swapped =
    fail available "lost"
    ∷ success available "online"
    ∷ wait configured "later"
    ∷ success available "ok"
    ∷ []

calls_end : (get_cond (perform_all new calls) available).reason ≡ error
unfolding perform_all perform add_success add_error add_waiting new get put
calls_end = refl

level-perform_all_example :
    level (perform_all new calls) available ≡ max (level new available) (worst available calls)
level-perform_all_example = level-perform_all new calls available

message-perform_all_example :
    (get_cond (perform_all new calls) available).message
    ≡ (get_cond new available).message ++ lines available calls
message-perform_all_example = message-perform_all new calls available

perform_all-IsConsistent_example : IsConsistent (perform_all new calls)
perform_all-IsConsistent_example = perform_all-IsConsistent new calls new-IsConsistent

swap_two : Shuffle calls swapped
swap_two =
    swap (success available "online") (fail available "lost")
      (wait configured "later" ∷ success available "ok" ∷ [])

perform_all-Shuffle_example :
    ((get_cond (perform_all new calls) available).reason
      ≡ (get_cond (perform_all new swapped) available).reason)
    × ((get_cond (perform_all new calls) available).status
        ≡ (get_cond (perform_all new swapped) available).status)
perform_all-Shuffle_example = perform_all-Shuffle new available new-IsConsistent swap_two

to_conditions-IsTold_example :
    IsSorted str_leb (types (to_conditions (perform_all new calls) 7))
    × HasNoRepeats (types (to_conditions (perform_all new calls) 7))
    × (contains (types (to_conditions (perform_all new calls) 7)) "Evacuated" ≡ false)
    × All (IsTold calls 7) (to_conditions (perform_all new calls) 7)
to_conditions-IsTold_example = to_conditions-IsTold calls 7 "Evacuated"

abbrev reordered : Conditions
reordered = (available, initial) ∷ (applied, initial) ∷ (configured, initial) ∷ []

new-reordered : Shuffle (perform_all new []) reordered
unfolding perform_all new
new-reordered = swap (applied, initial) (available, initial) ((configured, initial) ∷ [])

to_conditions-Shuffle_example : to_conditions (perform_all new []) 7 ≡ to_conditions reordered 7
to_conditions-Shuffle_example = to_conditions-Shuffle [] 7 new-reordered
