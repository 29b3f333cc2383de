-- ===== src/Evacuation/Syncing.antt =====
-- Whether `evacuateNode` of pkg/evacuation/evacuation.go repeats its call while replacements sync.
use piraeus_operator.Base.{
  String, Bool, true, false, List, [], ◌∷◌, ◌++◌, none, ◌≡◌, refl, sym, subst, arith, inl, inr,
  Bool-cases, In, contains, ◌==◌, if◌then◌else◌,
}
use piraeus_operator.Cluster.{Resource, LinstorNode, view_resources, check_sync}
use piraeus_operator.Cluster.Effect.{Api, Log, Result, ok, err, continue, pure}
use piraeus_operator.Cluster.Calls.{Grows, Grows-trans, Calls, Calls-pure, Calls-bind, calls_rules}
use piraeus_operator.Evacuation.Quiet.{IsQuiet}
use piraeus_operator.Evacuation.Volumes.{read}
use piraeus_operator.Evacuation.Relocate.{
  check_resource, is_syncing, evacuate_node, check_answer, tell_evacuate,
}

module _ (api : Api) where
  -- What a step answers when a replacement of the resource never gets in sync.
  abbrev pub NeverSynced : Resource → Type 0
  NeverSynced r =
      (read r.props api.names.key_rsc_migrate_from == "" ≡ false)
      × ((log : Log) → api.synced_on_all r.name log ≡ ok false)

  abbrev Says : Bool → Result Bool → Type 0
  Says b (ok c) = c ≡ b
  Says b (err e) = Unit

  answered :
      (name : String) (r : Result Bool) (log : Log)
      → Says true
          (continue {A = Bool}
            (λ synced. pure (if synced then true else true))
            (check_answer name r, log)).0
  answered name (ok true) log = refl
  answered name (ok false) log = refl
  answered name (err e) log = tt

  check_resource-true : (r : Resource) (log : Log) → Says true (check_resource api true r log).0
  unfolding check_resource
  check_resource-true r log =
      elim (Bool-cases (read r.props api.names.key_rsc_migrate_from == "")) [
        | inl e ↦ rw e refl
        | inr e ↦
            rw e (answered r.name (api.synced_on_all r.name log) (log ++ check_sync r.name ∷ []))
      ]

  check_resource-found :
      (found : Bool) (r : Resource) (log : Log)
      → NeverSynced r
      → Says true (check_resource api found r log).0
  unfolding check_resource
  check_resource-found found r log (moves, never) = rw (moves, never log) refl

  then-Says :
      (rs : List Resource) (p : Result Bool × Log)
      → Says true p.0
      → ((log : Log) → Says true (is_syncing api true rs log).0)
      → Says true (continue (λ b. is_syncing api b rs) p).0
  then-Says rs (ok true, log) h k = k log
  then-Says rs (ok false, log) h k = ground arith
  then-Says rs (err e, log) h k = tt

  is_syncing-true : (rs : List Resource) (log : Log) → Says true (is_syncing api true rs log).0
  unfolding is_syncing
  is_syncing-true [] log = refl
  is_syncing-true (r ∷ rs) log =
      then-Says rs (check_resource api true r log) (check_resource-true r log) (is_syncing-true rs)

  always-Says :
      (rs : List Resource) (p : Result Bool × Log)
      → ((b : Bool) (log : Log) → Says true (is_syncing api b rs log).0)
      → Says true (continue (λ b. is_syncing api b rs) p).0
  always-Says rs (ok b, log) k = k b log
  always-Says rs (err e, log) k = tt

  is_syncing-found :
      (r : Resource) (rs : List Resource)
      → In r rs
      → NeverSynced r
      → (found : Bool) (log : Log) → Says true (is_syncing api found rs log).0
  unfolding is_syncing
  is_syncing-found r (x ∷ rs) (inl e) never found log =
      then-Says rs (check_resource api found x log)
        (check_resource-found found x log (subst NeverSynced (sym e) never)) (is_syncing-true rs)
  is_syncing-found r (x ∷ rs) (inr i) never found log =
      always-Says rs (check_resource api found x log) (is_syncing-found r rs i never)
  is_syncing-found r [] i never found log = elim i [ ]

  check_resource-Calls : (found : Bool) (r : Resource) → Calls IsQuiet (check_resource api found r)
  unfolding check_resource
  check_resource-Calls found r = search (calls_rules, tt) depth 12

  is_syncing-Calls : (found : Bool) (rs : List Resource) → Calls IsQuiet (is_syncing api found rs)
  unfolding is_syncing
  is_syncing-Calls found [] = Calls-pure found
  is_syncing-Calls found (r ∷ rs) =
      Calls-bind (check_resource api found r) (λ b. is_syncing api b rs)
        (check_resource-Calls found r) (λ b. is_syncing-Calls b rs)

  stays :
      (node : LinstorNode) (p : Result Bool × Log)
      → Says true p.0
      → contains node.flags api.names.flag_evacuate ≡ true
      → (continue (tell_evacuate api node) p).1 ≡ p.1
  stays node (ok true, log) h flag = rw flag refl
  stays node (ok false, log) h flag = ground arith
  stays node (err e, log) h flag = refl

  -- While LINSTOR is evacuating a node already and a replacement of one of its resources is not in
  -- sync, the node is not evacuated again.
  pub evacuate_node-IsQuiet :
      (node : LinstorNode) (log : Log) (ress : List Resource) (r : Resource)
      → contains node.flags api.names.flag_evacuate ≡ true
      → api.resources node.name log ≡ (ress, none)
      → In r ress
      → NeverSynced r
      → Grows IsQuiet log (evacuate_node api node log).1
  unfolding evacuate_node
  evacuate_node-IsQuiet node log ress r flag listed i never =
      let asked = log ++ view_resources node.name ∷ [] in
      let found = is_syncing api false ress asked in
      rw (listed, stays node found (is_syncing-found r ress i never false asked) flag)
        (Grows-trans log asked found.1 (view_resources node.name ∷ [], refl, (tt, tt))
          ((is_syncing-Calls false ress).at asked))
