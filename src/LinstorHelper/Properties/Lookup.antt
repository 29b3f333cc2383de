-- ===== src/LinstorHelper/Properties/Lookup.antt =====
-- What the properties and the change of pkg/linstorhelper/properties.go hold for each name.
use piraeus_operator.Base.{
  String, Bool, List, [], ◌∷◌, none, some, ◌≡◌, refl, not, ◌&&◌, ◌==◌, eq_iff, arith, if◌then◌else◌,
  select, Dict, get, contains, HasDistinctKeys, contains-keys,
}
use piraeus_operator.LinstorHelper.Properties.{Props, last_apply_property, own_props}

pub get-select_key :
    {V : Type 0} (p : String → Bool) (m : Dict V) (k : String)
    → get (select (λ e. p e.0) m) k ≡ (if p k then get m k else none)
unfolding get
get-select_key p [] k = ground arith
get-select_key p ((j, v) ∷ m) k = ground (arith, eq_iff j k, get-select_key p m k)

pub get-own_props :
    (m : Props) (k : String)
    → get (own_props m) k ≡ (if k == last_apply_property then none else get m k)
unfolding own_props
get-own_props m k = ground (arith, get-select_key (λ j. not (j == last_apply_property)) m k)

pub contains-select :
    (p : String → Bool) (l : List String) (k : String)
    → contains (select p l) k ≡ (p k && contains l k)
contains-select p [] k = ground arith
contains-select p (x ∷ l) k = ground (arith, eq_iff x k, contains-select p l k)

-- The first pair of a well-formed map is the one that `get` finds.
pub get-select_pair :
    (p : String × String → Bool) (m : Props) (k : String)
    → HasDistinctKeys m
    → get (select p m) k
      ≡ (elim (get m k) [ none ↦ none | some v ↦ if p (k, v) then some v else none ])
unfolding get
get-select_pair p [] k h = refl
get-select_pair p ((j, v) ∷ m) k (fresh, h) =
    ground (arith, eq_iff j k, contains-keys m k, contains-keys m j, get-select_pair p m k h)
