-- ===== src/Cluster/Linstor.antt =====
-- The answers that the controllers and pkg/linstorhelper need besides those of the evacuation.
use piraeus_operator.Base.{ℕ, String, Bool, List, Option}
use piraeus_operator.Cluster.{NodeInfo, PoolInfo, Service, Secret, Pod, ApiError}
use piraeus_operator.Cluster.Effect.{Log, Result}

-- What a command in a pod prints, and its error. `is_exit_code` is what `errors.As` with
-- `CodeExitError` says of that.
pub record Output : Type 0 where
  pub stdout : String
  pub failed : Option ApiError
  pub is_exit_code : Bool

-- Listings, single objects, and what `crypto/tls` makes of a certificate and a key.
pub record LinstorApi : Type 0 where
  pub services : String → Log → Result (List Service)
  pub secret : String → Log → Result Secret
  pub config_map : String → Log → Result Secret
  pub max_concurrent_evacuations : String → Log → Result ℕ
  pub node : String → Log → Result NodeInfo
  pub pools : String → Log → Result (List PoolInfo)
  pub pool : String → String → Log → Result PoolInfo
  pub output : List String → Log → Output
  pub has_certificates : String → Bool
  pub key_pair_error : String → String → Option ApiError
  pub client_error : Option ApiError
  pub pods : String → Log → Result (List Pod)
  pub version_error : Log → Option ApiError
