-- ===== src/Merge/Folds.antt =====
-- The loop of pkg/merge/linstorsatelliteconfiguration.go, field by field.
use piraeus_operator.Base.{
  String, Bool, List, [], ◌∷◌, ◌++◌, Option, ◌≡◌, refl, ap, ◌∙◌, sym, select, map, put_named,
  put_named-append, Bool-cases, inl, inr,
}
use mathlib.Core.List.{append_assoc, append-nil}
use piraeus_operator.Cluster.{Node, NodeSelector}
use piraeus_operator.Merge.{
  LinstorSatelliteConfiguration, Collected, applies_to, add_configuration, collect_from,
  convert_template_to_patch, property_name, pool_spec_name, Patch,
}

abbrev pub flatten : {A B : Type 0} → (A → List B) → List A → List B
flatten f [] = []
flatten f (x ∷ xs) = f x ++ flatten f xs

module _ (matches : Node → NodeSelector → Bool) (encode : String → Option String)
    (node : Node) where
  abbrev pub applying : List LinstorSatelliteConfiguration → List LinstorSatelliteConfiguration
  applying configs = select (applies_to matches encode node) configs

  -- The loop is a fold over the configurations that apply.
  abbrev pub fold : Collected → List LinstorSatelliteConfiguration → Collected
  fold c [] = c
  fold c (cfg ∷ cfgs) = fold (add_configuration matches encode c cfg) cfgs

  pub collect_from-fold :
      (c : Collected) (cfgs : List LinstorSatelliteConfiguration)
      → collect_from matches encode node c cfgs ≡ fold c (applying cfgs)
  unfolding collect_from
  collect_from-fold c [] = refl
  collect_from-fold c (cfg ∷ cfgs) = elim (Bool-cases (applies_to matches encode node cfg)) [
    | inl e ↦ rw (collect_from, e) (collect_from-fold (add_configuration matches encode c cfg) cfgs)
    | inr e ↦ rw (collect_from, e) (collect_from-fold c cfgs)
  ]

  pub props_map-fold :
      (c : Collected) (cfgs : List LinstorSatelliteConfiguration)
      → (fold c cfgs).props_map
        ≡ put_named property_name
            (flatten (λ (g : LinstorSatelliteConfiguration). g.properties) cfgs)
            c.props_map
  unfolding put_named
  props_map-fold c [] = refl
  props_map-fold c (cfg ∷ cfgs) =
      props_map-fold (add_configuration matches encode c cfg) cfgs
      ∙ sym (put_named-append property_name cfg.properties _ c.props_map)

  pub stor_pool_map-fold :
      (c : Collected) (cfgs : List LinstorSatelliteConfiguration)
      → (fold c cfgs).stor_pool_map
        ≡ put_named pool_spec_name
            (flatten (λ (g : LinstorSatelliteConfiguration). g.storage_pools) cfgs)
            c.stor_pool_map
  unfolding put_named
  stor_pool_map-fold c [] = refl
  stor_pool_map-fold c (cfg ∷ cfgs) =
      stor_pool_map-fold (add_configuration matches encode c cfg) cfgs
      ∙ sym (put_named-append pool_spec_name cfg.storage_pools _ c.stor_pool_map)

  pub matched-fold :
      (c : Collected) (cfgs : List LinstorSatelliteConfiguration)
      → (fold c cfgs).matched
        ≡ c.matched ++ map (λ (g : LinstorSatelliteConfiguration). g.name) cfgs
  matched-fold c [] = sym (append-nil c.matched)
  matched-fold c (cfg ∷ cfgs) =
      matched-fold (add_configuration matches encode c cfg) cfgs
      ∙ append_assoc c.matched (cfg.name ∷ []) _

  abbrev pub patches_of : LinstorSatelliteConfiguration → List Patch
  patches_of cfg = convert_template_to_patch matches encode cfg.pod_template ++ cfg.patches

  pub patches-fold :
      (c : Collected) (cfgs : List LinstorSatelliteConfiguration)
      → (fold c cfgs).patches ≡ c.patches ++ flatten patches_of cfgs
  patches-fold c [] = sym (append-nil c.patches)
  patches-fold c (cfg ∷ cfgs) =
      patches-fold (add_configuration matches encode c cfg) cfgs
      ∙ ap (λ l. l ++ flatten patches_of cfgs)
          (append_assoc c.patches (convert_template_to_patch matches encode cfg.pod_template)
            cfg.patches)
      ∙ append_assoc c.patches (patches_of cfg) (flatten patches_of cfgs)
