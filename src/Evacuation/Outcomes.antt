-- ===== src/Evacuation/Outcomes.antt =====
-- The end of an evacuation in pkg/evacuation/evacuation.go: what is written to the volumes, and how
-- many satellites do anything at a time.
use mathlib.Core.List.{append_assoc, append-nil}
use piraeus_operator.Base.{
  ℕ, suc, String, Bool, false, List, [], ◌∷◌, ◌++◌, Option, none, ◌≡◌, refl, sym, ◌∙◌, inl, inr,
  Bool-cases, select, map, get, remove, get-remove, ◌==◌, if◌then◌else◌, arith, true, ◌<◌, All, ltb,
  contains, eq_iff, eq_refl, ◌≤◌, zero, length, length-append, ◌&&◌,
}
use piraeus_operator.Conditions.{Conditions}
use piraeus_operator.Cluster.{
  PersistentVolume, LinstorSatellite, LinstorNode, Machine, ApiError, update_volume,
  list_satellites,
}
use piraeus_operator.Cluster.Effect.{Api, Log, ok, Result}
use piraeus_operator.Evacuation.Volumes.{since_annotation, wait_annotation, override_annotation}
use piraeus_operator.Evacuation.Relocate.{is_marked, cleaned, clean_volume, clean_volumes}
use piraeus_operator.Evacuation.Reattach.{EvacuationStrategy}
use piraeus_operator.Evacuation.Admission.{admit_evacuation}
use piraeus_operator.Evacuation.Admission.Candidates.{is_candidate, HasUniqueNames}
use piraeus_operator.Evacuation.Admission.Capacity.{admit_evacuation-limit}
use piraeus_operator.Evacuation.Run.{admit, run}

module _ (api : Api) (node : String) where
  -- Cleaning updates exactly the volumes that an evacuation of the node has marked, in their order,
  -- whatever the single updates return.
  pub clean_volumes_lem :
      (pvs : List PersistentVolume) (errs : List ApiError) (log : Log)
      → (clean_volumes api node errs pvs log).1
        ≡ log ++ map (λ pv. update_volume (cleaned api node pv)) (select (is_marked api node) pvs)
  unfolding clean_volumes clean_volume
  clean_volumes_lem [] errs log = sym (append-nil log)
  clean_volumes_lem (pv ∷ pvs) errs log = elim (Bool-cases (is_marked api node pv)) [
    | inl e ↦ rw e (
        clean_volumes_lem pvs _ (log ++ update_volume (cleaned api node pv) ∷ [])
        ∙ append_assoc log _ _)
    | inr e ↦ rw e (clean_volumes_lem pvs errs log)
  ]

  get-cleaned :
      (pv : PersistentVolume) (k : String)
      → get (cleaned api node pv).annotations k ≡ (
          if override_annotation api.names node == k
          then none
          else if wait_annotation node == k
          then none
          else if since_annotation node == k
          then none
          else get pv.annotations k)
  get-cleaned pv k =
      let once = remove pv.annotations (since_annotation node) in
      let twice = remove once (wait_annotation node) in
      rw
        (
          get-remove twice (override_annotation api.names node) k,
          get-remove once (wait_annotation node) k,
          get-remove pv.annotations (since_annotation node) k,
        )
        refl

  -- A volume after a cleaning whose updates succeed.
  abbrev pub stored : PersistentVolume → PersistentVolume
  stored pv = if is_marked api node pv then cleaned api node pv else pv

  cleaned_unmarked : (pv : PersistentVolume) → is_marked api node (cleaned api node pv) ≡ false
  cleaned_unmarked pv = ground (
    arith,
    get-cleaned pv (since_annotation node),
    get-cleaned pv (override_annotation api.names node),
    get-cleaned pv (wait_annotation node),
    eq_refl (since_annotation node),
    eq_refl (wait_annotation node),
    eq_refl (override_annotation api.names node),
  )

  stored_unmarked : (pv : PersistentVolume) → is_marked api node (stored pv) ≡ false
  stored_unmarked pv = elim (Bool-cases (is_marked api node pv)) [
    | inl e ↦ rw e (cleaned_unmarked pv)
    | inr e ↦ rw e e
  ]

  -- The annotations of an evacuation of the node.
  abbrev pub marks : List String
  marks = since_annotation node ∷ wait_annotation node ∷ override_annotation api.names node ∷ []

  -- A volume is left with none of the marks and with all its other annotations.
  abbrev pub IsCleanOf : PersistentVolume → PersistentVolume → Type 0
  IsCleanOf after pv =
      (k : String)
      → get after.annotations k ≡ (if contains marks k then none else get pv.annotations k)

  stored-IsCleanOf : (pv : PersistentVolume) → IsCleanOf (stored pv) pv
  stored-IsCleanOf pv k = ground (
    arith,
    get-cleaned pv k,
    eq_iff (since_annotation node) k,
    eq_iff (wait_annotation node) k,
    eq_iff (override_annotation api.names node) k,
  )

  -- Cleaning volumes that were cleaned before updates nothing and adds no error, and a cleaned volume
  -- has lost exactly the marks of the node.
  pub clean_volumes-stored :
      (pvs : List PersistentVolume) (errs : List ApiError) (log : Log)
      → (clean_volumes api node errs (map stored pvs) log ≡ (ok errs, log))
        × All (λ pv. IsCleanOf (stored pv) pv) pvs
  unfolding clean_volumes clean_volume
  clean_volumes-stored [] errs log = (refl, tt)
  clean_volumes-stored (pv ∷ pvs) errs log =
      let (quiet, clean) = clean_volumes-stored pvs errs log in
      (rw (stored_unmarked pv) quiet, (stored-IsCleanOf pv, clean))

length-select_imp :
    {A : Type 0} (p q : A → Bool) (xs : List A)
    → ((x : A) → p x ≡ true → q x ≡ true)
    → length (select p xs) ≤ length (select q xs)
length-select_imp p q [] h = omega arith
length-select_imp p q (x ∷ xs) h = ground (arith, h x, length-select_imp p q xs h)

-- A satellite that is not admitted only lists the satellites.
run_waits :
    (api : Api) (connected : Bool) (strategy : EvacuationStrategy) (node : LinstorNode)
    (machine : Option Machine) (conds : Conditions) (limit : ℕ) (log : Log)
    (satellites : List LinstorSatellite)
    → 0 < limit
    → api.satellites log ≡ ok satellites
    → (admit_evacuation node.name limit (api.now (log ++ list_satellites ∷ [])) satellites).admitted
      ≡ false
    → (run api connected strategy node machine conds limit log).1 ≡ log ++ list_satellites ∷ []
unfolding run admit
run_waits api connected strategy node machine conds zero log satellites h listed waits =
    absurd (omega arith)
run_waits api connected strategy node machine conds (suc limit) log satellites h listed waits =
    rw (listed, waits) refl

-- Every satellite of the cluster has a node of its name, a machine and conditions.
module _ (api : Api) (connected : Bool) (strategy : EvacuationStrategy)
    (flags : String → List String) (machine : String → Option Machine) (conds : String → Conditions)
    (limit : ℕ) (log : Log) where
  abbrev pub run_of : String → (Result Bool × Conditions) × Log
  run_of name =
      run api connected strategy (record { name = name; flags = flags name }) (machine name)
        (conds name) limit log

  -- Whether a satellite's run does more than list the satellites.
  abbrev pub acts : String → Bool
  acts name = ltb (suc (length log)) (length (run_of name).1)

  acts_admitted :
      (satellites : List LinstorSatellite) (name : String)
      → 0 < limit
      → api.satellites log ≡ ok satellites
      → acts name ≡ true
      → (admit_evacuation name limit (api.now (log ++ list_satellites ∷ [])) satellites).admitted
        ≡ true
  acts_admitted satellites name h listed a = ground (
    arith,
    a,
    length-append log (list_satellites ∷ []),
    run_waits api connected strategy (record { name = name; flags = flags name }) (machine name)
        (conds name) limit log satellites h listed,
  )

  -- Of the satellites that evacuate or wait, at most `limit` do anything but list the satellites,
  -- however many ask in one state of the cluster. The limit is not 0, names are unique and the
  -- listing succeeds.
  pub run-limit :
      (satellites : List LinstorSatellite)
      → 0 < limit
      → HasUniqueNames satellites
      → api.satellites log ≡ ok satellites
      → length (select (λ s. is_candidate s && acts s.name) satellites) ≤ limit
  run-limit satellites h u listed =
      let now = api.now (log ++ list_satellites ∷ []) in
      omega (
        arith,
        admit_evacuation-limit limit (λ name. now) satellites h u,
        length-select_imp (λ s. is_candidate s && acts s.name)
            (λ s. is_candidate s && (admit_evacuation s.name limit now satellites).admitted)
            satellites (λ s e. ground (arith, e, acts_admitted satellites s.name h listed)),
      )
