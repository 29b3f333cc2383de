-- ===== src/LinstorHelper/Properties.antt =====
-- pkg/linstorhelper/properties.go: the change that brings the properties of a LINSTOR object in line
-- with the wanted ones. The operator keeps the names that it set in one more property, as JSON.
pub mod Lookup
pub mod Recorded
pub mod Converges
pub mod Codec
mod Tests
use piraeus_operator.Base.{
  String, Bool, true, false, List, [], ◌∷◌, ◌++◌, Option, none, some, ◌≡◌, not, ◌&&◌, ◌==◌, ◌⧺◌,
  if◌then◌else◌, or_else, is_some, is_empty, select, Dict, get, put, keys, sort, str_leb,
}

-- `encoding/json` on a list of strings. `decode` is what `json.Unmarshal` leaves in an empty list
-- when its error is ignored: nothing, for an empty text. Encoding is undone by decoding.
pub record Json : Type 0 where
  pub encode : List String → String
  pub decode : String → List String
  pub decode-encode : (l : List String) → decode (encode l) ≡ l
  pub decode-empty : decode "" ≡ []

abbrev pub Props : Type 0
Props = Dict String

-- `linstor.NamespcAuxiliary + "/" + vars.ApplyAnnotation`, of which the first is LINSTOR's.
abbrev pub last_apply_property : String
last_apply_property = "Aux/piraeus.io/last-applied"

-- `lclient.GenericPropsModify`, as far as it is set here
pub record GenericPropsModify : Type 0 where
  pub override_props : Props
  pub delete_props : List String

-- the map without the operator's own entry
unfoldable pub own_props : Props → Props
own_props props = select (λ p. not (p.0 == last_apply_property)) props

module _ (json : Json) where
  unfoldable pub update_last_apply_property : Props → Props
  update_last_apply_property props =
      let result = own_props props in
      if is_empty result
      then []
      else put result last_apply_property (json.encode (sort str_leb (keys result)))

  -- `current[k]` is there and is `v`
  abbrev pub holds : Props → String × String → Bool
  holds current (k, v) = elim (get current k) [ none ↦ false | some w ↦ w == v ]

  unfoldable pub make_properties_modification : Props → Props → Option GenericPropsModify
  make_properties_modification current expected =
      let expected = update_last_apply_property expected in
      let override = select (λ p. not (holds current p)) expected in
      let last = or_else "" (get current last_apply_property) in
      let stale = select (λ k. not (is_some (get expected k))) (json.decode last) in
      if is_empty override && last == or_else "" (get expected last_apply_property)
      then none
      else some (record {
        override_props = override;
        delete_props = if is_empty expected then stale ++ last_apply_property ∷ [] else stale;
      })
