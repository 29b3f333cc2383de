-- ===== src/LinstorHelper/Properties/Codec.antt =====
-- A codec that meets what is assumed of `encoding/json`, for tests of pkg/linstorhelper/properties.go
-- and of its callers.
use Prim.Native.Char.{code}
use text.Mathlib.TextLemmas
use piraeus_operator.Base.{String, List, [], ◌∷◌, ◌≡◌, refl, ◌∙◌, eqb, ◌⧺◌, if◌then◌else◌}
use piraeus_operator.LinstorHelper.Properties.{Json}

abbrev pub encode_one : String → String → String
encode_one String.[] rest = String.◌∷◌ "e" (String.◌∷◌ "." rest)
encode_one (String.◌∷◌ c s) rest = String.◌∷◌ "x" (String.◌∷◌ c (encode_one s rest))

abbrev pub encode_all : List String → String
encode_all [] = ""
encode_all (s ∷ l) = encode_one s (encode_all l)

abbrev pub decode_from : String → String → List String
decode_from cur String.[] = []
decode_from cur (String.◌∷◌ t String.[]) = []
decode_from cur (String.◌∷◌ t (String.◌∷◌ c r)) =
    let closed = cur ∷ decode_from "" r in
    let longer = decode_from (cur ⧺ String.◌∷◌ c String.[]) r in
    if eqb (code t) b'e' then closed else longer

decode_from-encode_one :
    (cur s rest : String) → decode_from cur (encode_one s rest) ≡ (cur ⧺ s) ∷ decode_from "" rest
decode_from-encode_one cur String.[] rest = rw TextLemmas.append-nil
decode_from-encode_one cur (String.◌∷◌ c s) rest =
    decode_from-encode_one (cur ⧺ String.◌∷◌ c String.[]) s rest
    ∙ simp (TextLemmas.append_assoc, TextLemmas.cons-append, TextLemmas.nil-append)

pub decode-encode_all : (l : List String) → decode_from "" (encode_all l) ≡ l
decode-encode_all [] = refl
decode-encode_all (s ∷ l) =
    decode_from-encode_one "" s (encode_all l) ∙ simp (TextLemmas.nil-append, decode-encode_all l)

abbrev pub codec : Json
codec = record {
  encode = encode_all;
  decode = decode_from "";
  decode-encode = decode-encode_all;
  decode-empty = refl;
}
