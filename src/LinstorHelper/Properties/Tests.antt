-- ===== src/LinstorHelper/Properties/Tests.antt =====
-- A property store that meets what is assumed of the real one, and the theorems about
-- pkg/linstorhelper/properties.go at concrete properties.

use piraeus_operator.Base.{
  String, true, false, [], ◌∷◌, ◌++◌, none, some, ◌≡◌, ◌≢◌, refl, not, arith, if◌then◌else◌,
  or_else, select, Dict, get, put, contains, sort, insert, eq_iff,
}
use piraeus_operator.LinstorHelper.Properties.{
  Props, GenericPropsModify, last_apply_property, own_props, update_last_apply_property,
  make_properties_modification,
}
use piraeus_operator.LinstorHelper.Properties.Codec.{codec, encode_all}
use piraeus_operator.LinstorHelper.Properties.Lookup.{get-select_key}
use piraeus_operator.LinstorHelper.Properties.Converges.{
  PropertyStore, reconciled, make_properties_modification-wanted, last-reconciled,
  make_properties_modification_idem,
}
use piraeus_operator.LinstorHelper.Properties.Recorded.{wanted}

get-append :
    {V : Type 0} (a b : Dict V) (k : String)
    → get (a ++ b) k ≡ (elim (get a k) [ some v ↦ some v | none ↦ get b k ])
unfolding get
get-append [] b k = refl
get-append ((j, v) ∷ a) b k = ground (arith, get-append a b k)

abbrev modified : Props → GenericPropsModify → Props
modified p m =
    select (λ e. not (contains m.delete_props e.0)) m.override_props
    ++ select (λ e. not (contains m.delete_props e.0)) p

get-modified :
    (p : Props) (m : GenericPropsModify) (k : String)
    → get (modified p m) k ≡ (
        if contains m.delete_props k
        then none
        else elim (get m.override_props k) [ some v ↦ some v | none ↦ get p k ])
get-modified p m k = ground (
  arith,
  get-append (select (λ e. not (contains m.delete_props e.0)) m.override_props)
      (select (λ e. not (contains m.delete_props e.0)) p) k,
  get-select_key (λ j. not (contains m.delete_props j)) m.override_props k,
  get-select_key (λ j. not (contains m.delete_props j)) p k,
)

modified-deletes :
    (p : Props) (m : GenericPropsModify) (k : String)
    → contains m.delete_props k ≡ true
    → get m.override_props k ≡ none
    → get (modified p m) k ≡ none
modified-deletes p m k d o = ground (arith, get-modified p m k)

modified-sets :
    (p : Props) (m : GenericPropsModify) (k v : String)
    → contains m.delete_props k ≡ false
    → get m.override_props k ≡ some v
    → get (modified p m) k ≡ some v
modified-sets p m k v d o = ground (arith, get-modified p m k)

modified-keeps :
    (p : Props) (m : GenericPropsModify) (k : String)
    → contains m.delete_props k ≡ false
    → get m.override_props k ≡ none
    → get (modified p m) k ≡ get p k
modified-keeps p m k d o = ground (arith, get-modified p m k)

abbrev plain_store : PropertyStore
plain_store = record {
  modify = modified;
  deletes = modified-deletes;
  sets = modified-sets;
  keeps = modified-keeps;
}

-- "a" was set before and is not wanted any more, "other" is not the operator's.
abbrev current : Props
current =
    ("a", "1")
    ∷ ("b", "2")
    ∷ ("other", "x")
    ∷ (last_apply_property, encode_all ("a" ∷ "b" ∷ []))
    ∷ []

abbrev expected : Props
expected = ("c", "3") ∷ ("b", "9") ∷ []

change_test :
    make_properties_modification codec current expected
    ≡ some (record {
      override_props =
          ("c", "3") ∷ ("b", "9") ∷ (last_apply_property, encode_all ("b" ∷ "c" ∷ [])) ∷ [];
      delete_props = "a" ∷ [];
    })
unfolding make_properties_modification update_last_apply_property own_props get put sort insert
change_test = refl

a_ne_last : ◌≢◌ {A = String} "a" last_apply_property
a_ne_last = ground (arith, eq_iff "a" last_apply_property)

make_properties_modification-wanted_example :
    get (reconciled codec plain_store current expected) "a" ≡ wanted codec current expected "a"
make_properties_modification-wanted_example =
    make_properties_modification-wanted codec plain_store current expected "a" (refl, (refl, tt))
      a_ne_last

last-reconciled_example :
    contains
      (codec.decode
        (or_else "" (get (reconciled codec plain_store current expected) last_apply_property)))
      "a"
    ≡ false
unfolding get
last-reconciled_example = last-reconciled codec plain_store current expected "a" (refl, (refl, tt))

make_properties_modification_idem_example :
    make_properties_modification codec (reconciled codec plain_store current expected) expected
    ≡ none
make_properties_modification_idem_example =
    make_properties_modification_idem codec plain_store current expected (refl, (refl, tt))
