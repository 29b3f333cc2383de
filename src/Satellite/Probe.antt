-- ===== src/Satellite/Probe.antt =====
-- internal/controller/storagepool_probe.go: what the satellite's node has for a storage pool. What errors
-- quote is left out.
use piraeus_operator.Base.{
  String, Bool, true, List, [], ◌∷◌, none, some, ◌==◌, not, if◌then◌else◌, select, contains, map,
  trim_space, lines,
}
use piraeus_operator.Cluster.{exec}
use piraeus_operator.Cluster.Effect.{M, Result, ok, err, pure, ask, wrap}
use piraeus_operator.Cluster.Linstor.{LinstorApi, Output}
use piraeus_operator.StoragePool.{LinstorStoragePool, pool_name, backend_probe_command}

-- the lines of an output, which are trimmed
abbrev pub listed : String → List String
listed stdout = map trim_space (lines stdout)

abbrev pub found_backend : String → Output → Result Bool
found_backend want out = elim out.failed [
  | some e ↦ err (wrap "storage backend probe failed" e)
  | none ↦ ok (contains (listed out.stdout) want)
]

abbrev pub source_device_probe_command : List String → List String
source_device_probe_command devices = "stat" ∷ "-L" ∷ "-c" ∷ "%n" ∷ devices

-- the lines with something on them
abbrev pub present : String → List String
present stdout = select (λ l. not (l == "")) (listed stdout)

abbrev pub missing_in : List String → String → List String
missing_in devices stdout = select (λ d. not (contains (present stdout) d)) devices

abbrev pub found_missing : List String → Output → Result (List String)
found_missing devices out = elim out.failed [
  | none ↦ ok (missing_in devices out.stdout)
  | some e ↦
      if out.is_exit_code
      then ok (missing_in devices out.stdout)
      else err (wrap "source device probe failed" e)
]

module _ (lin : LinstorApi) where
  abbrev pub probe : LinstorStoragePool → List String → M Bool
  probe pool [] = pure true
  probe pool (c ∷ cs) =
      ask (exec (c ∷ cs)) (λ log. found_backend (pool_name pool) (lin.output (c ∷ cs) log))

  unfoldable pub storage_pool_backend_exists : LinstorStoragePool → M Bool
  storage_pool_backend_exists pool = probe pool (backend_probe_command pool)

  unfoldable pub missing_source_devices : List String → M (List String)
  missing_source_devices [] = pure []
  missing_source_devices (d ∷ ds) =
      let command = source_device_probe_command (d ∷ ds) in
      ask (exec command) (λ log. found_missing (d ∷ ds) (lin.output command log))
