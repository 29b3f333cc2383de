-- ===== src/Base/Named.antt =====
-- Maps from the names of things to the things: the last one of a name stays.
use Prim.Native.String.{String}
use mathlib.Core.Path.{◌≡◌, refl, ap, ◌∙◌, subst}
use mathlib.Core.Logic.{◌↔◌, inl, inr}
use mathlib.Core.Bool.{true, false}
use mathlib.Core.Option.{Option, some, some-injective}
use mathlib.Core.List.{List, [], ◌∷◌, ◌++◌}
use native.Mathlib.Omega.{arith}
use text.Mathlib.Text.{◌==◌}
use text.Mathlib.TextEquality.{eq_iff}
use piraeus_operator.Base.Tests.{if◌then◌else◌, Bool-cases, is_some}
use piraeus_operator.Base.Lists.{All, In, contains}
use piraeus_operator.Base.Maps.{
  Dict, get, put, keys, HasDistinctKeys, get-put, put-HasDistinctKeys, contains-keys,
}
use piraeus_operator.Base.Sort.{Shuffle, done, keep, swap, then_by}

pub Shuffle-symm : {A : Type 0} {xs ys : List A} → Shuffle xs ys → Shuffle ys xs
Shuffle-symm done = done
Shuffle-symm (keep x s) = keep x (Shuffle-symm s)
Shuffle-symm (swap x y xs) = swap y x xs
Shuffle-symm (then_by s t) = then_by (Shuffle-symm t) (Shuffle-symm s)

abbrev pub values : {V : Type 0} → Dict V → List V
values [] = []
values ((k, v) ∷ m) = v ∷ values m

module _ {V : Type 0} (name : V → String) where
  -- `for i := range vs { m[vs[i].Name] = vs[i] }`
  unfoldable pub put_named : List V → Dict V → Dict V
  put_named [] m = m
  put_named (v ∷ vs) m = put_named vs (put m (name v) v)

  -- the last one of a name, or else what there was before
  abbrev pub last_named : Option V → String → List V → Option V
  last_named before k [] = before
  last_named before k (v ∷ vs) = last_named (if name v == k then some v else before) k vs

  pub put_named-append :
      (xs ys : List V) (m : Dict V) → put_named (xs ++ ys) m ≡ put_named ys (put_named xs m)
  unfolding put_named
  put_named-append [] ys m = refl
  put_named-append (x ∷ xs) ys m = put_named-append xs ys (put m (name x) x)

  pub get-put_named :
      (vs : List V) (m : Dict V) (k : String) → get (put_named vs m) k ≡ last_named (get m k) k vs
  unfolding put_named
  get-put_named [] m k = refl
  get-put_named (v ∷ vs) m k =
      get-put_named vs (put m (name v) v) k ∙ ap (λ o. last_named o k vs) (get-put m (name v) v k)

  -- Each key is the name of its value.
  abbrev pub IsNamed : Dict V → Type 0
  IsNamed m = All (λ p. p.0 ≡ name p.1) m

  put-IsNamed : (m : Dict V) (v : V) → IsNamed m → IsNamed (put m (name v) v)
  unfolding put
  put-IsNamed [] v h = (refl, tt)
  put-IsNamed ((j, w) ∷ m) v (e, h) = elim (Bool-cases (j == name v)) [
    | inl s ↦ rw (put, s) (refl, h)
    | inr s ↦ rw (put, s) (e, put-IsNamed m v h)
  ]

  pub put_named-IsNamed :
      (vs : List V) (m : Dict V)
      → IsNamed m × HasDistinctKeys m
      → IsNamed (put_named vs m) × HasDistinctKeys (put_named vs m)
  unfolding put_named
  put_named-IsNamed [] m h = h
  put_named-IsNamed (v ∷ vs) m (n, d) =
      put_named-IsNamed vs (put m (name v) v)
        (put-IsNamed m v n, put-HasDistinctKeys m (name v) v d)

  only_here :
      (m : Dict V) (j : String) (v : V)
      → contains (keys m) j ≡ false
      → get m (name v) ≡ some v
      → (j == name v) ≡ false
  only_here m j v fresh g = elim (Bool-cases (j == name v)) [
    | inr e ↦ e
    | inl e ↦
        let there : contains (keys m) (name v) ≡ true = contains-keys m (name v) ∙ ap is_some g in
        let here : contains (keys m) (name v) ≡ false =
          subst (λ k. contains (keys m) k ≡ false) ((eq_iff j (name v)).0 e) fresh in
        absurd (ground (arith, there, here))
  ]

  In→get :
      (m : Dict V) (v : V)
      → IsNamed m
      → HasDistinctKeys m
      → In v (values m)
      → get m (name v) ≡ some v
  unfolding get
  In→get [] v n d i = absurd i
  In→get ((j, w) ∷ m) v (e, n) (fresh, d) (inl same) =
      let here = (eq_iff j (name v)).1 (e ∙ ap name same) in rw (get, here) (ap some same)
  In→get ((j, w) ∷ m) v (e, n) (fresh, d) (inr i) =
      let g = In→get m v n d i in rw (get, only_here m j v fresh g) g

  get→In : (m : Dict V) (k : String) (v : V) → get m k ≡ some v → In v (values m)
  unfolding get
  get→In [] k v h = absurd (ground arith)
  get→In ((j, w) ∷ m) k v h = elim (Bool-cases (j == k)) [
    | inl e ↦ let h' : some w ≡ some v = rw (get, e) at h in inl (some-injective _ _ h')
    | inr e ↦ let h' : get m k ≡ some v = rw (get, e) at h in inr (get→In m k v h')
  ]

  -- The values of such a map are those that it has under their names.
  pub In-values :
      (m : Dict V) (v : V)
      → IsNamed m × HasDistinctKeys m
      → In v (values m) ↔ (get m (name v) ≡ some v)
  In-values m v (n, d) = (In→get m v n d, get→In m (name v) v)
