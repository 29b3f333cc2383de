-- ===== src/FieldPath/Accepted.antt =====
-- What the webhook's check of properties, in internal/webhook/v1/properties.go, promises the
-- controllers that resolve them with pkg/utils/property_resolution.go.
use piraeus_operator.Base.{
  ℕ, suc, String, Bool, true, false, List, [], ◌∷◌, ◌++◌, Option, none, some, ◌==◌, not,
  if◌then◌else◌, is_some, is_empty, eqb, length, map, Dict, put, decimal, or_else, ◌≡◌, refl, sym,
  ap, ◌∙◌, arith, Bool-cases, Option-cases, inl, inr, cut_suffix, keys, sort, str_leb, get,
}
use piraeus_operator.Cluster.Effect.{Result, ok, err}
use piraeus_operator.FieldPath.{
  ObjectMeta, KeyRules, Fields, extract_field_path, extract_at, extract_subscript, extract_whole,
  subscripted, map_to_slices, filter_prefix, single, split_maybe_subscripted_path,
}
use piraeus_operator.StoragePool.Validation.{FieldError, field_error, invalid, child, failures}
use piraeus_operator.StoragePool.Accepted.{append_empty}
use piraeus_operator.FieldPath.Properties.{
  LinstorNodeProperty, LinstorNodePropertyExpandFrom, from_field, from_expansion, resolve_reference,
  resolve_expansion, resolve_one, resolve_from, resolve_node_properties, blank, format_errors,
  has_keys, value_from_errors, expand_from_errors, count_errors, property_errors, properties_errors,
  validate_node_properties, put_first_value, expanded,
}

length-map : {A B : Type 0} (f : A → B) (xs : List A) → length (map f xs) ≡ length xs
length-map f [] = refl
length-map f (x ∷ xs) = ap suc (length-map f xs)

-- There are keys, and as many values.
abbrev IsAligned : Fields → Type 0
IsAligned f = is_some f.keys ≡ true → length (or_else [] f.keys) ≡ length f.vals

-- Two answers to a reference: both errors, or both with keys or both without.
abbrev IsAlike : Result Fields → Result Fields → Type 0
IsAlike (err e) (err e') = Unit
IsAlike (ok f) (ok g) = (is_some f.keys ≡ is_some g.keys) × IsAligned g
IsAlike (ok f) (err e) = ⊥
IsAlike (err e) (ok f) = ⊥

IsAlike-if :
    (b : Bool) (x x' y y' : Result Fields)
    → IsAlike x x'
    → IsAlike y y'
    → IsAlike (if b then x else y) (if b then x' else y')
IsAlike-if true x x' y y' h k = h
IsAlike-if false x x' y y' h k = k

map_to_slices-IsAlike :
    (m m' : Dict String) → IsAlike (ok (map_to_slices m)) (ok (map_to_slices m'))
unfolding map_to_slices
map_to_slices-IsAlike m m' =
    (refl, λ h. sym (length-map (λ k. or_else "" (get m' k)) (sort str_leb (keys m'))))

single-IsAlike : (o o' : Option String) → IsAlike (ok (single o)) (ok (single o'))
single-IsAlike none none = (refl, λ h. ground arith)
single-IsAlike none (some v) = (refl, λ h. ground arith)
single-IsAlike (some v) none = (refl, λ h. ground arith)
single-IsAlike (some v) (some w) = (refl, λ h. ground arith)

subscripted-IsAlike :
    (errs : List String) (m m' : Dict String) (field_path subscript : String)
    → IsAlike (subscripted errs m field_path subscript) (subscripted errs m' field_path subscript)
unfolding subscripted
subscripted-IsAlike errs m m' field_path subscript =
    elim (Option-cases (cut_suffix "*" subscript)) [
      | inl e ↦
          rw (subscripted, e)
            (IsAlike-if (is_empty errs) _ _ _ _
              (single-IsAlike (get m subscript) (get m' subscript)) tt)
      | inr (prefix, e) ↦
          rw (subscripted, e)
            (map_to_slices-IsAlike (filter_prefix m prefix) (filter_prefix m' prefix))
    ]

module _ (rules : KeyRules) (obj obj' : ObjectMeta) where
  extract_subscript-IsAlike :
      (field_path path subscript : String)
      → IsAlike
          (extract_subscript rules obj field_path path subscript)
          (extract_subscript rules obj' field_path path subscript)
  unfolding extract_subscript
  extract_subscript-IsAlike field_path path subscript =
      IsAlike-if (path == "metadata.annotations") _ _ _ _
        (subscripted-IsAlike _ obj.annotations obj'.annotations field_path subscript)
        (IsAlike-if (path == "metadata.labels") _ _ _ _
          (subscripted-IsAlike _ obj.labels obj'.labels field_path subscript) tt)

  literal-IsAlike : (s t : String) → IsAlike (ok (single (some s))) (ok (single (some t)))
  literal-IsAlike s t = single-IsAlike (some s) (some t)

  extract_whole-IsAlike :
      (field_path : String)
      → IsAlike (extract_whole rules obj field_path) (extract_whole rules obj' field_path)
  unfolding extract_whole
  extract_whole-IsAlike field_path =
      IsAlike-if (field_path == "metadata.annotations") _ _ _ _
        (map_to_slices-IsAlike obj.annotations obj'.annotations)
        (IsAlike-if (field_path == "metadata.labels") _ _ _ _
          (map_to_slices-IsAlike obj.labels obj'.labels)
          (IsAlike-if (field_path == "metadata.name") _ _ _ _ (literal-IsAlike obj.name obj'.name) (
            IsAlike-if (field_path == "metadata.namespace") _ _ _ _
              (literal-IsAlike obj.namespace obj'.namespace)
              (IsAlike-if (field_path == "metadata.uid") _ _ _ _ (literal-IsAlike obj.uid obj'.uid)
                tt))))

  extract_at-IsAlike :
      (field_path : String) (q : String × String × Bool)
      → IsAlike (extract_at rules obj field_path q) (extract_at rules obj' field_path q)
  extract_at-IsAlike field_path (path, subscript, true) =
      extract_subscript-IsAlike field_path path subscript
  extract_at-IsAlike field_path (path, subscript, false) = extract_whole-IsAlike field_path

  -- Whether a reference is understood, and whether it is a wildcard, does not depend on the object.
  extract_field_path-IsAlike :
      (field_path : String)
      → IsAlike (extract_field_path rules obj field_path) (extract_field_path rules obj' field_path)
  unfolding extract_field_path
  extract_field_path-IsAlike field_path =
      extract_at-IsAlike field_path (split_maybe_subscripted_path field_path)

eqb_refl : (n : ℕ) → eqb n n ≡ true
eqb_refl n = ground arith

-- A result that is no error
abbrev pub Succeeds : {A : Type 0} → Result A → Type 0
Succeeds {A} r = (a : A) × (r ≡ ok a)

module _ (rules : KeyRules) where
  from_field-Succeeds :
      (p : LinstorNodeProperty) (ref at text : String) (result : Dict String) (r r' : Result Fields)
      → IsAlike r r'
      → format_errors rules at r ++ failures ((has_keys rules r, field_error invalid at text) ∷ [])
        ≡ []
      → Succeeds (from_field p ref result r')
  from_field-Succeeds p ref at text result (err e) r' h k = absurd (ground arith)
  from_field-Succeeds p ref at text result (ok f) (err e) h k = absurd h
  from_field-Succeeds p ref at text result (ok f) (ok g) (same, aligned) k =
      elim (Bool-cases (is_some f.keys)) [
        | inl e ↦
            let k' : field_error invalid at text ∷ [] ≡ [] = rw e at k in absurd (ground arith)
        | inr e ↦ (put_first_value p result g.vals, rw (← same, e) refl)
      ]

  from_expansion-Succeeds :
      (p : LinstorNodeProperty) (e : LinstorNodePropertyExpandFrom) (at text : String)
      (rest : List (Bool × FieldError)) (result : Dict String) (r r' : Result Fields)
      → IsAlike r r'
      → format_errors rules at r
          ++ failures ((not (has_keys rules r), field_error invalid at text) ∷ rest)
        ≡ []
      → Succeeds (from_expansion p e result r')
  from_expansion-Succeeds p e at text rest result (err x) r' h k = absurd (ground arith)
  from_expansion-Succeeds p e at text rest result (ok f) (err x) h k = absurd h
  from_expansion-Succeeds p e at text rest result (ok f) (ok g) (same, aligned) k =
      elim (Bool-cases (is_some f.keys)) [
        | inl h ↦
            (expanded p e result g, rw (aligned (sym same ∙ h), eqb_refl (length g.vals)) refl)
        | inr h ↦
            let k' : field_error invalid at text ∷ failures rest ≡ [] = rw h at k in
            absurd (ground arith)
      ]

  module _ (node : ObjectMeta) where
    resolve_expansion-Succeeds :
        (p : LinstorNodeProperty) (o : Option LinstorNodePropertyExpandFrom) (path : String)
        (result : Dict String)
        → expand_from_errors rules path o ≡ []
        → Succeeds (resolve_expansion rules node p o result)
    unfolding expand_from_errors
    resolve_expansion-Succeeds p none path result h = (result, refl)
    resolve_expansion-Succeeds p (some e) path result h =
        from_expansion-Succeeds p e _ _ _ result
          (extract_field_path rules (blank rules) e.node_field_ref)
          (extract_field_path rules node e.node_field_ref)
          (extract_field_path-IsAlike rules (blank rules) node e.node_field_ref) h

    resolve_reference-Succeeds :
        (p : LinstorNodeProperty) (o : Option String) (path : String) (result : Dict String)
        → value_from_errors rules path o ≡ []
        → expand_from_errors rules path p.expand_from ≡ []
        → Succeeds (resolve_reference rules node p o result)
    unfolding value_from_errors
    resolve_reference-Succeeds p none path result h k =
        resolve_expansion-Succeeds p p.expand_from path result k
    resolve_reference-Succeeds p (some ref) path result h k =
        from_field-Succeeds p ref _ _ result (extract_field_path rules (blank rules) ref)
          (extract_field_path rules node ref)
          (extract_field_path-IsAlike rules (blank rules) node ref) h

    resolve_one-Succeeds :
        (p : LinstorNodeProperty) (path : String) (result : Dict String)
        → property_errors rules p path ≡ []
        → Succeeds (resolve_one rules node p result)
    unfolding resolve_one
    resolve_one-Succeeds p path result h =
        let (start, expands) =
          append_empty (count_errors rules p path ++ value_from_errors rules path p.value_from) _
            h in
        let (_, refs) = append_empty (count_errors rules p path) _ start in
        elim (Bool-cases (p.value == "")) [
          | inl e ↦
              rw (resolve_one, e)
                (resolve_reference-Succeeds p p.value_from path result refs expands)
          | inr e ↦ (put result p.name p.value, rw (resolve_one, e) refl)
        ]

    resolve_from-Succeeds :
        (i : ℕ) (path : String) (props : List LinstorNodeProperty) (result : Dict String)
        → properties_errors rules i path props ≡ []
        → Succeeds (resolve_from rules node props (ok result))
    unfolding resolve_from properties_errors
    resolve_from-Succeeds i path [] result h = (result, refl)
    resolve_from-Succeeds i path (p ∷ props) result h =
        let (here, later) = append_empty (property_errors rules p (child path (decimal i))) _ h in
        let (next, e) = resolve_one-Succeeds p _ result here in
        rw (resolve_from, e) (resolve_from-Succeeds (suc i) path props next later)

    -- Properties that the webhook accepts are resolved without an error, whatever name, labels and
    -- annotations the node has.
    pub resolve_node_properties-Succeeds :
        (props : List LinstorNodeProperty) (path : String)
        → validate_node_properties rules props path ≡ []
        → Succeeds (resolve_node_properties rules node props)
    unfolding resolve_node_properties validate_node_properties
    resolve_node_properties-Succeeds props path h = resolve_from-Succeeds 0 path props [] h
