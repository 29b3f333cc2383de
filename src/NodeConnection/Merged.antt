-- ===== src/NodeConnection/Merged.antt =====
-- What `MergeNodeConnection` and the inner loop of `DesiredNodeConnections` leave for each name, in
-- internal/controller/linstornodeconnection_controller.go.
use piraeus_operator.Base.{
  String, List, [], ◌∷◌, ◌++◌, Option, none, some, ◌≡◌, refl, sym, ◌∙◌, ap, arith, ◌==◌, eq_iff,
  if◌then◌else◌, get, put, get-put, select, contains-keys, HasDistinctKeys, put-HasDistinctKeys,
  Dict, Bool-cases, inl, inr,
}
use piraeus_operator.LinstorHelper.Properties.{Props}
use piraeus_operator.NodeConnection.{
  LinstorNodeConnection, LinstorNodeConnectionPath, path_key, put_all, put_paths,
  resolve_cluster_properties, merge_node_connection, merge_applying, node_connection_applies,
}

-- The last value of a name in a list of settings, or else what there was before.
abbrev pub last_setting : String → Option String → List (String × String) → Option String
last_setting k before [] = before
last_setting k before ((j, v) ∷ rest) = last_setting k (if j == k then some v else before) rest

last_setting-append :
    (k : String) (before : Option String) (xs ys : List (String × String))
    → last_setting k before (xs ++ ys) ≡ last_setting k (last_setting k before xs) ys
last_setting-append k before [] ys = refl
last_setting-append k before ((j, v) ∷ xs) ys =
    last_setting-append k (if j == k then some v else before) xs ys

last_setting_before :
    (k : String) (before : Option String) (xs : List (String × String))
    → last_setting k before xs ≡ elim (last_setting k none xs) [ none ↦ before | some v ↦ some v ]
last_setting_before k before [] = refl
last_setting_before k before ((j, v) ∷ xs) =
    ground (arith, last_setting_before k (some v) xs, last_setting_before k before xs)

last_setting-map : (k : String) (m : Props) → HasDistinctKeys m → last_setting k none m ≡ get m k
unfolding get
last_setting-map k [] h = refl
last_setting-map k ((j, v) ∷ m) (fresh, h) =
    ground (
      arith,
      eq_iff j k,
      contains-keys m j,
      last_setting-map k m h,
      last_setting_before k (some v) m,
    )

put_all-HasDistinctKeys :
    (rest props : Props) → HasDistinctKeys props → HasDistinctKeys (put_all props rest)
unfolding put_all
put_all-HasDistinctKeys [] props h = h
put_all-HasDistinctKeys ((k, v) ∷ rest) props h =
    put_all-HasDistinctKeys rest (put props k v) (put-HasDistinctKeys props k v h)

get-put_all :
    (rest props : Props) (k : String)
    → get (put_all props rest) k ≡ last_setting k (get props k) rest
unfolding put_all
get-put_all [] props k = refl
get-put_all ((j, v) ∷ rest) props k =
    get-put_all rest (put props j v) k ∙ ap (λ o. last_setting k o rest) (get-put props j v k)

-- A list of settings as a map sets the same.
last_setting-resolved :
    (k : String) (before : Option String) (rest : List (String × String))
    → last_setting k before (put_all [] rest) ≡ last_setting k before rest
unfolding get
last_setting-resolved k before rest = ground (
  arith,
  last_setting_before k before (put_all [] rest),
  last_setting_before k before rest,
  last_setting-map k (put_all [] rest) (put_all-HasDistinctKeys rest [] tt),
  get-put_all rest [] k,
)

module _ (namespace a b : String) where
  -- The settings of the paths: the interface, for both nodes.
  abbrev pub path_settings : List LinstorNodeConnectionPath → List (String × String)
  path_settings [] = []
  path_settings (p ∷ paths) =
      (path_key namespace p.name a, p.interface)
      ∷ (path_key namespace p.name b, p.interface)
      ∷ path_settings paths

  -- What a node connection sets, the paths last.
  abbrev pub settings : LinstorNodeConnection → List (String × String)
  settings c = c.properties ++ path_settings c.paths

  abbrev pub all_settings : List LinstorNodeConnection → List (String × String)
  all_settings [] = []
  all_settings (c ∷ conns) = settings c ++ all_settings conns

  get-put_paths :
      (paths : List LinstorNodeConnectionPath) (props : Props) (k : String)
      → get (put_paths namespace a b props paths) k
        ≡ last_setting k (get props k) (path_settings paths)
  unfolding put_paths
  get-put_paths [] props k = refl
  get-put_paths (p ∷ paths) props k =
      let key_a = path_key namespace p.name a in
      let key_b = path_key namespace p.name b in
      get-put_paths paths (put (put props key_a p.interface) key_b p.interface) k
      ∙ ap (λ o. last_setting k o (path_settings paths))
          (get-put (put props key_a p.interface) key_b p.interface k
            ∙ ap (λ o. if key_b == k then some p.interface else o)
                (get-put props key_a p.interface k))

  get-merge_node_connection :
      (c : LinstorNodeConnection) (props : Props) (k : String)
      → get (merge_node_connection namespace props c a b) k
        ≡ last_setting k (get props k) (settings c)
  unfolding merge_node_connection resolve_cluster_properties
  get-merge_node_connection c props k =
      get-put_paths c.paths (put_all props (put_all [] c.properties)) k
      ∙ ap (λ o. last_setting k o (path_settings c.paths))
          (get-put_all (put_all [] c.properties) props k
            ∙ last_setting-resolved k (get props k) c.properties)
      ∙ sym (last_setting-append k (get props k) c.properties (path_settings c.paths))

  -- A name has the last value that a node connection sets among those that apply.
  pub get-merge_applying :
      (labels : Dict (Dict String)) (conns : List LinstorNodeConnection) (props : Props)
      (k : String)
      → get (merge_applying namespace labels a b props conns) k
        ≡ last_setting k
            (get props k)
            (all_settings (select (λ c. node_connection_applies c.selector a b labels) conns))
  unfolding merge_applying
  get-merge_applying labels [] props k = refl
  get-merge_applying labels (c ∷ conns) props k =
      elim (Bool-cases (node_connection_applies c.selector a b labels)) [
        | inl e ↦ rw e (
            get-merge_applying labels conns (merge_node_connection namespace props c a b) k
            ∙ ap
                (λ o. last_setting k o (
                  all_settings (select (λ d. node_connection_applies d.selector a b labels) conns)))
                (get-merge_node_connection c props k)
            ∙ sym (last_setting-append k (get props k) (settings c) _))
        | inr e ↦ rw e (get-merge_applying labels conns props k)
      ]
