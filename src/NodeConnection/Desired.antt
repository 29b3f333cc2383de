-- ===== src/NodeConnection/Desired.antt =====
-- Which connections `DesiredNodeConnections` of
-- internal/controller/linstornodeconnection_controller.go asks for, and which ones are changed.
use piraeus_operator.Base.{
  ℕ, String, Bool, true, false, List, [], ◌∷◌, Option, none, some, ◌≡◌, refl, ◌⊎◌, inl, inr, arith,
  All, All-append, In, Dict, put, remove, is_empty, Bool-cases, ◌==◌, not, ◌||◌, keys, sort,
  str_leb, length, ltb, get, get-put, select, sym, ◌∙◌, eq_refl, Option-cases, is_some,
}
use piraeus_operator.LinstorHelper.Properties.{Json, GenericPropsModify}
use piraeus_operator.LinstorHelper.Properties.Recorded.{get_empty}
use piraeus_operator.NodeConnection.Merged.{last_setting, all_settings, get-merge_applying}
use piraeus_operator.NodeConnection.{
  LinstorNodeConnection, Connection, Change, merge_applying, desired_from, desired_node_connections,
  connection_name, pairs_at, change_of, change_actual, change_missing, reconcile_cluster,
  is_available, node_connection_applies,
}

-- `put` and `remove` keep what holds of all entries.
put-All :
    {V : Type 0} (P : String × V → Type 0) (m : Dict V) (k : String) (v : V)
    → P (k, v)
    → All P m
    → All P (put m k v)
unfolding put
put-All P [] k v p h = (p, tt)
put-All P ((j, w) ∷ m) k v p (q, h) = elim (Bool-cases (j == k)) [
  | inl e ↦ rw e (p, h)
  | inr e ↦ rw e (q, put-All P m k v p h)
]

remove-All :
    {V : Type 0} (P : String × V → Type 0) (m : Dict V) (k : String) → All P m → All P (remove m k)
unfolding remove
remove-All P [] k h = tt
remove-All P ((j, w) ∷ m) k (q, h) = elim (Bool-cases (j == k)) [
  | inl e ↦ rw e (remove-All P m k h)
  | inr e ↦ rw e (q, remove-All P m k h)
]

module _ (namespace : String) (conns : List LinstorNodeConnection)
    (labels : Dict (Dict String)) where
  -- What the node connections that apply to a pair set, in their order.
  abbrev pub applying_settings : String → String → List (String × String)
  applying_settings a b =
      all_settings namespace a b (select (λ c. node_connection_applies c.selector a b labels) conns)

  -- A connection of a pair, under its name, with properties, where each name has the last value that
  -- a node connection sets among those that apply.
  abbrev pub IsDesired : List (String × String) → String × Connection → Type 0
  IsDesired pairs (name, c) =
      In (c.node_a, c.node_b) pairs
      × (name ≡ connection_name c.node_a c.node_b)
      × ((k : String) → get c.props k ≡ last_setting k none (applying_settings c.node_a c.node_b))
      × (is_empty c.props ≡ false)

  get-merged :
      (a b k : String)
      → get (merge_applying namespace labels a b [] conns) k
        ≡ last_setting k none (applying_settings a b)
  unfolding get
  get-merged a b k = get-merge_applying namespace a b labels conns [] k

  connection : String → String → Connection
  connection a b = record {
    node_a = a;
    node_b = b;
    props = merge_applying namespace labels a b [] conns;
  }

  desired_from-IsDesired :
      (all pairs : List (String × String)) (result : Dict Connection)
      → ((ab : String × String) → In ab pairs → In ab all)
      → All (IsDesired all) result
      → All (IsDesired all) (desired_from namespace conns labels result pairs)
  unfolding desired_from connection
  desired_from-IsDesired all [] result k h = h
  desired_from-IsDesired all ((a, b) ∷ pairs) result k h =
      let props = merge_applying namespace labels a b [] conns in
      elim (Bool-cases (is_empty props)) [
        | inl e ↦ rw e (desired_from-IsDesired all pairs result (λ ab i. k ab (inr i)) h)
        | inr e ↦ rw e (
            desired_from-IsDesired all pairs _ (λ ab i. k ab (inr i))
              (put-All (IsDesired all) result (connection_name a b) (connection a b)
                (k (a, b) (inl refl), refl, get-merged a b, e) h))
      ]

  -- Entries stay while others are put in.
  desired_from_keeps :
      (pairs : List (String × String)) (result : Dict Connection) (name : String)
      → is_some (get result name) ≡ true
      → is_some (get (desired_from namespace conns labels result pairs) name) ≡ true
  unfolding desired_from connection
  desired_from_keeps [] result name h = h
  desired_from_keeps ((a, b) ∷ pairs) result name h =
      elim (Bool-cases (is_empty (merge_applying namespace labels a b [] conns))) [
        | inl e ↦ rw e (desired_from_keeps pairs result name h)
        | inr e ↦ rw e (
            desired_from_keeps pairs (put result (connection_name a b) (connection a b)) name
              (ground (arith, get-put result (connection_name a b) (connection a b) name)))
      ]

  desired_from_head :
      (a b k v : String) (pairs : List (String × String)) (result : Dict Connection)
      → last_setting k none (applying_settings a b) ≡ some v
      → is_some
          (get (desired_from namespace conns labels result ((a, b) ∷ pairs)) (connection_name a b))
        ≡ true
  unfolding desired_from connection
  desired_from_head a b k v pairs result h =
      elim (Bool-cases (is_empty (merge_applying namespace labels a b [] conns))) [
        | inl e ↦ absurd (
            none_is_not_some (
              sym (get_empty (merge_applying namespace labels a b [] conns) k e)
              ∙ get-merged a b k
              ∙ h))
        | inr e ↦ rw e (
            desired_from_keeps pairs (put result (connection_name a b) (connection a b))
              (connection_name a b)
              (rw
                (
                  get-put result (connection_name a b) (connection a b) (connection_name a b),
                  eq_refl (connection_name a b),
                )
                refl))
      ]
    where
      none_is_not_some : {u : String} → ¬ (none ≡ some u)
      none_is_not_some e = ground arith

  -- A pair for which a name is set has a connection.
  abbrev pub IsReached : Dict Connection → String × String → Type 0
  IsReached desired (a, b) =
      (k : String)
      → (not (is_some (last_setting k none (applying_settings a b)))
          || is_some (get desired (connection_name a b)))
        ≡ true

  desired_from-IsReached :
      (pairs : List (String × String)) (result : Dict Connection)
      → All (IsReached (desired_from namespace conns labels result pairs)) pairs
  unfolding desired_from
  desired_from-IsReached [] result = tt
  desired_from-IsReached ((a, b) ∷ pairs) result = (
    λ k. elim (Option-cases (last_setting k none (applying_settings a b))) [
      | inl e ↦ rw e
      | inr (v, e) ↦ rw e (desired_from_head a b k v pairs result e)
    ],
    desired_from-IsReached pairs _,
  )

  -- Every desired connection is that of a generated pair of satellites, stands under the pair's name
  -- and has properties: each name has the last value that a node connection sets among those that
  -- apply to the pair, and other names are not set. Where there are two satellites or more, a generated
  -- pair for which they set anything is desired.
  pub desired_node_connections-IsDesired :
      (combinations : ℕ → List (ℕ × ℕ)) (satellites : Dict Bool)
      → All
          (IsDesired (pairs_at (sort str_leb (keys satellites)) (combinations (length satellites))))
          (desired_node_connections namespace combinations conns satellites labels)
        × (ltb (length satellites) 2 ≡ true
            ⊎ All
                (IsReached
                  (desired_node_connections namespace combinations conns satellites labels))
                (pairs_at (sort str_leb (keys satellites)) (combinations (length satellites))))
  unfolding desired_node_connections
  desired_node_connections-IsDesired combinations satellites =
      elim (Bool-cases (ltb (length satellites) 2)) [
        | inl e ↦ rw e (tt, inl refl)
        | inr e ↦
            rw e (desired_from-IsDesired _ _ [] (λ ab i. i) tt, inr (desired_from-IsReached _ []))
      ]

abbrev pub ends : List Connection → List (String × String)
ends [] = []
ends (c ∷ cs) = (c.node_a, c.node_b) ∷ ends cs

-- A change of a connection that exists, or between two satellites that are online.
abbrev pub IsJustified : Dict Bool → List Connection → Change → Type 0
IsJustified satellites actual ((a, b), m) =
    In {A = String × String} (a, b) (ends actual)
    ⊎ (is_available satellites a ≡ true) × (is_available satellites b ≡ true)

module _ (json : Json) (satellites : Dict Bool) where
  of_change :
      (a b : String) (m : Option GenericPropsModify) (all : List Connection)
      → In {A = String × String} (a, b) (ends all)
      → All (IsJustified satellites all) (change_of a b m)
  of_change a b none all i = tt
  of_change a b (some m) all i = (inl i, tt)

  change_actual-IsJustified :
      (all actual : List Connection) (desired : Dict Connection)
      → ((ab : String × String) → In ab (ends actual) → In ab (ends all))
      → All (IsJustified satellites all) (change_actual json desired actual).0
  unfolding change_actual
  change_actual-IsJustified all [] desired k = tt
  change_actual-IsJustified all (c ∷ actual) desired k =
      All-append (IsJustified satellites all) (change_of c.node_a c.node_b _) _
        (of_change c.node_a c.node_b _ all (k (c.node_a, c.node_b) (inl refl)))
        (change_actual-IsJustified all actual (remove desired (connection_name c.node_a c.node_b))
          (λ ab i. k ab (inr i)))

  both_available : (x y : Bool) → (not x || not y) ≡ false → (x ≡ true) × (y ≡ true)
  both_available true true h = (refl, refl)
  both_available true false h = ground arith
  both_available false y h = ground arith

  change_missing-IsJustified :
      (all : List Connection) (left : Dict Connection)
      → All (IsJustified satellites all) (change_missing json satellites left)
  unfolding change_missing
  change_missing-IsJustified all [] = tt
  change_missing-IsJustified all ((name, c) ∷ rest) =
      elim (Bool-cases
        (not (is_available satellites c.node_a) || not (is_available satellites c.node_b))) [
          | inl e ↦ rw e (change_missing-IsJustified all rest)
          | inr e ↦ rw e (
            inr (
                both_available (is_available satellites c.node_a) (is_available satellites c.node_b)
                  e),
            change_missing-IsJustified all rest,
          )
        ]

  -- A connection is only changed where LINSTOR has it, or where both satellites are online.
  pub reconcile_cluster-IsJustified :
      (desired : Dict Connection) (actual : List Connection)
      → All (IsJustified satellites actual) (reconcile_cluster json satellites desired actual)
  unfolding reconcile_cluster
  reconcile_cluster-IsJustified desired actual =
      All-append (IsJustified satellites actual) (change_actual json desired actual).0 _
        (change_actual-IsJustified actual actual desired (λ ab i. i))
        (change_missing-IsJustified actual (change_actual json desired actual).1)
