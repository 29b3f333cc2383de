-- ===== src/Merge/Merged.antt =====
-- What the merged configuration of pkg/merge/linstorsatelliteconfiguration.go holds.
use piraeus_operator.Base.{
  String, List, [], Option, none, some, ◌≡◌, ◌↔◌, ap, ◌∙◌, sym, subst, map, get, put_named,
  last_named, values, sort, IsSorted, sort-IsSorted, sort-Shuffle, In, In-Shuffle, Shuffle-symm,
  In-values, put_named-IsNamed, get-put_named, str_leb, str_leb-total, str_leb_trans, Bool,
}
use piraeus_operator.Cluster.{Node, NodeSelector}
use piraeus_operator.Merge.{
  LinstorSatelliteConfiguration, by_name, property_name, pool_spec_name, satellite_configurations,
  nothing_yet,
}
use piraeus_operator.Merge.Folds.{
  flatten, applying, patches_of, collect_from-fold, props_map-fold, stor_pool_map-fold,
  matched-fold, patches-fold,
}

-- Sorted by name, and of each name exactly the last one that was given.
abbrev pub IsMerge : {V : Type 0} → (V → String) → List V → List V → Type 0
IsMerge {V} name given merged =
    IsSorted (λ (a b : V). str_leb (name a) (name b)) merged
    × ((v : V) → In v merged ↔ (last_named name none (name v) given ≡ some v))

module _ {V : Type 0} (name : V → String) where
  sorted_values-IsMerge :
      (given : List V)
      → IsMerge name given
          (sort (λ (a b : V). str_leb (name a) (name b)) (values (put_named name given [])))
  unfolding get
  sorted_values-IsMerge given =
      let m = put_named name given [] in
      let named = put_named-IsNamed name given [] (tt, tt) in
      let s = sort-Shuffle (λ (a b : V). str_leb (name a) (name b)) (values m) in
      (
        sort-IsSorted (λ a b. str_leb-total (name a) (name b))
            (λ a b c. str_leb_trans (name a) (name b) (name c)) (values m),
        λ v.
            let same = get-put_named name given [] (name v) in
            (
              (λ i. sym same ∙ (In-values name m v named).0 (In-Shuffle v (Shuffle-symm s) i)),
              (λ e. In-Shuffle v s ((In-values name m v named).1 (same ∙ e))),
            ),
      )

module _ (matches : Node → NodeSelector → Bool) (encode : String → Option String) where
  -- The merged configuration has, sorted by name, the last property and the last storage pool of each name
  -- that the configurations which apply to the node give, and no other; and their patches, those of pod
  -- templates included, one configuration after the other. The names returned beside it are those of the
  -- configurations that apply, in their order.
  pub satellite_configurations-IsMerge :
      (node : Node) (configs : List LinstorSatelliteConfiguration)
      → (let (merged, matched) = satellite_configurations matches encode node configs in
          let chosen = applying matches encode node configs in
          IsMerge property_name
            (flatten (λ (g : LinstorSatelliteConfiguration). g.properties) chosen)
            merged.properties
          × IsMerge pool_spec_name
              (flatten (λ (g : LinstorSatelliteConfiguration). g.storage_pools) chosen)
              merged.storage_pools
          × (merged.patches ≡ flatten (patches_of matches encode node) chosen)
          × (matched ≡ map (λ (g : LinstorSatelliteConfiguration). g.name) chosen))
  unfolding satellite_configurations
  satellite_configurations-IsMerge node configs =
      let chosen = applying matches encode node configs in
      let loop = collect_from-fold matches encode node nothing_yet configs in
      (
        subst
            (λ m.
              IsMerge property_name
                (flatten (λ (g : LinstorSatelliteConfiguration). g.properties) chosen)
                (sort (by_name matches encode property_name) (values m)))
            (sym
              (ap (λ c. c.props_map) loop ∙ props_map-fold matches encode node nothing_yet chosen))
            (sorted_values-IsMerge property_name
              (flatten (λ (g : LinstorSatelliteConfiguration). g.properties) chosen)),
        subst
            (λ m.
              IsMerge pool_spec_name
                (flatten (λ (g : LinstorSatelliteConfiguration). g.storage_pools) chosen)
                (sort (by_name matches encode pool_spec_name) (values m)))
            (sym (
              ap (λ c. c.stor_pool_map) loop
              ∙ stor_pool_map-fold matches encode node nothing_yet chosen))
            (sorted_values-IsMerge pool_spec_name
              (flatten (λ (g : LinstorSatelliteConfiguration). g.storage_pools) chosen)),
        ap (λ c. c.patches) loop ∙ patches-fold matches encode node nothing_yet chosen,
        ap (λ c. c.matched) loop ∙ matched-fold matches encode node nothing_yet chosen,
      )
