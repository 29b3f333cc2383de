-- ===== src/Base/GoPath.antt =====
-- Go's `path.Clean` and `path.Join`, and tests on the characters of a text.
use Prim.Native.Nat.{ℕ, suc}
use Prim.Native.Char.{Char, code}
use Prim.Native.String.{String}
use mathlib.Core.Path.{◌≡◌, refl}
use mathlib.Core.Bool.{Bool, true, false, ◌&&◌, ◌||◌}
use mathlib.Core.List.{List, [], ◌∷◌}
use text.Mathlib.Text.{◌==◌}
use piraeus_operator.Base.Tests.{leb, eqb, if◌then◌else◌}
use piraeus_operator.Base.Text.{◌⧺◌, join}

abbrev pub between : ℕ → ℕ → ℕ → Bool
between low high n = leb low n && leb n high

abbrev pub is_letter : ℕ → Bool
is_letter n = between 65 90 n || between 97 122 n

abbrev pub is_alphanumeric : ℕ → Bool
is_alphanumeric n = is_letter n || between 48 57 n

abbrev pub all_chars : (ℕ → Bool) → String → Bool
all_chars p String.[] = true
all_chars p (String.◌∷◌ c s) = p (code c) && all_chars p s

abbrev pub any_char : (ℕ → Bool) → String → Bool
any_char p String.[] = false
any_char p (String.◌∷◌ c s) = p (code c) || any_char p s

abbrev pub size : String → ℕ
size String.[] = 0
size (String.◌∷◌ c s) = suc (size s)

-- The first character in one class, the others in another.
abbrev pub first_then : (ℕ → Bool) → (String → Bool) → String → Bool
first_then p q String.[] = false
first_then p q (String.◌∷◌ c s) = p (code c) && q s

-- Whether the last character is in a class.
abbrev pub last_in : (ℕ → Bool) → String → Bool
last_in p String.[] = false
last_in p (String.◌∷◌ c String.[]) = p (code c)
last_in p (String.◌∷◌ c (String.◌∷◌ d s)) = last_in p (String.◌∷◌ d s)

-- A character is put on the segment that `split` is at.
abbrev pub onto_first : Char → List String → List String
onto_first c [] = String.◌∷◌ c String.[] ∷ []
onto_first c (s ∷ rest) = String.◌∷◌ c s ∷ rest

-- The segments between slashes.
abbrev pub split : String → List String
split String.[] = "" ∷ []
split (String.◌∷◌ c s) =
    let rest = split s in if eqb (code c) 47 then "" ∷ rest else onto_first c rest

abbrev pub is_rooted : String → Bool
is_rooted s = first_then (λ n. eqb n 47) (λ _. true) s

-- `..` after the segments of `kept`, the last one first
abbrev pub go_up : Bool → List String → List String
go_up true [] = []
go_up false [] = ".." ∷ []
go_up rooted (s ∷ kept) = if s == ".." then ".." ∷ s ∷ kept else kept

abbrev pub clean_segments : Bool → List String → List String → List String
clean_segments rooted kept [] = kept
clean_segments rooted kept (s ∷ rest) =
    clean_segments rooted
      (if s == "" || s == "." then kept else if s == ".." then go_up rooted kept else s ∷ kept) rest

abbrev pub reversed : List String → List String → List String
reversed done [] = done
reversed done (s ∷ rest) = reversed (s ∷ done) rest

abbrev pub or_dot : String → String
or_dot s = if s == "" then "." else s

unfoldable pub path_clean : String → String
path_clean s =
    let kept = join "/" (reversed [] (clean_segments (is_rooted s) [] (split s))) in
    if is_rooted s then "/" ⧺ kept else or_dot kept

-- `path.Join(dir, name)` for a `dir` that is not empty
unfoldable pub path_join : String → String → String
unfolding path_clean
path_join dir name = if name == "" then path_clean dir else path_clean (dir ⧺ "/" ⧺ name)

cleaned1 : path_clean "/dev//sda/../sdb/." ≡ "/dev/sdb"
unfolding path_clean
cleaned1 = refl
