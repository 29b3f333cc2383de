-- ===== src/LinstorHelper/Client.antt =====
-- pkg/linstorhelper/client.go: how a client for a cluster's LINSTOR controller is made.
use piraeus_operator.Base.{
  ℕ, String, Bool, true, false, List, [], ◌∷◌, Option, none, some, ◌⧺◌, ◌==◌, ◌&&◌, not,
  if◌then◌else◌, get, or_else, decimal,
}
use piraeus_operator.Cluster.{
  Service, ServicePort, Secret, ApiError, plain_error, list_services, get_secret, get_config_map,
}
use piraeus_operator.Cluster.Effect.{M, Result, ok, err, pure, throw, ask, ◌>>=◌, ◌>>◌, fail_if}
use piraeus_operator.Cluster.Linstor.{LinstorApi}

pub record CaReference : Type 0 where
  pub kind : String
  pub name : String
  pub key : String
  pub optional : Bool

-- `ClusterReference`, with the URL of the external controller
pub record ClusterRef : Type 0 where
  pub name : String
  pub client_secret_name : String
  pub ca_reference : Option CaReference
  pub external_controller : Option String

-- What a client is made of: its endpoints, and whether it has a TLS configuration.
pub record LinstorClient : Type 0 where
  pub endpoints : String
  pub is_secured : Bool

-- the loop of `extractSchemeAndPort`, for what was found before
unfoldable pub scheme_from : Option (String × ℕ) → List ServicePort → Option (String × ℕ)
scheme_from found [] = found
scheme_from found (p ∷ ports) =
    let rest = scheme_from (if p.name == "api" then some ("http", p.port) else found) ports in
    if p.name == "secure-api" then some ("https", p.port) else rest

unfoldable pub extract_scheme_and_port : Service → Option (String × ℕ)
extract_scheme_and_port s = scheme_from none s.ports

abbrev pub base_url : Service → String × ℕ → String
base_url s (scheme, port) = scheme ⧺ "://" ⧺ s.name ⧺ "." ⧺ s.namespace ⧺ ".svc:" ⧺ decimal port

abbrev pub endpoint_of : Service → Option String
endpoint_of s = elim (extract_scheme_and_port s) [ none ↦ none | some sp ↦ some (base_url s sp) ]

-- exactly one service, with a port
abbrev pub only_endpoint : List Service → Option String
only_endpoint [] = none
only_endpoint (s ∷ []) = endpoint_of s
only_endpoint (s ∷ t ∷ rest) = none

-- A missing object that is optional is nothing. A missing key is nil in a Secret, and an empty text
-- in a ConfigMap.
abbrev pub unless_optional :
    Bool → (Secret → Option String) → Result Secret → Result (Option String)
unless_optional optional f (ok s) = ok (f s)
unless_optional optional f (err e) = if e.is_not_found && optional then ok none else err e

abbrev pub secret_key : String → Secret → Option String
secret_key key s = get s.entries key

abbrev pub config_map_key : String → Secret → Option String
config_map_key key s = some (or_else "" (get s.entries key))

abbrev pub found_endpoint : Result (List Service) → Result (Option String)
found_endpoint (ok services) = ok (only_endpoint services)
found_endpoint (err e) = err e

module _ (lin : LinstorApi) where
  -- `caReferenceToCert`. Another kind of reference panics in Go and is an error here.
  unfoldable pub ca_reference_to_cert : Option CaReference → M (Option String)
  ca_reference_to_cert none = pure none
  ca_reference_to_cert (some ref) =
      if ref.kind == "Secret"
      then ask (get_secret ref.name)
          (λ log. unless_optional ref.optional (secret_key ref.key) (lin.secret ref.name log))
      else if ref.kind == "ConfigMap"
      then ask (get_config_map ref.name) (λ log.
        unless_optional ref.optional (config_map_key ref.key) (lin.config_map ref.name log))
      else throw (plain_error "unsupported CA reference kind")

  -- `secretToTlsConfig`: its error, if any
  unfoldable pub tls_error : Secret → Option String → Option ApiError
  tls_error secret ca_root =
      let root = or_else (or_else "" (get secret.entries "ca.crt")) ca_root in
      if not (secret.kind == "kubernetes.io/tls")
      then some (plain_error ("secret of type '" ⧺ secret.kind ⧺ "', expected 'kubernetes.io/tls'"))
      else if not (lin.has_certificates root)
      then some (plain_error ("failed to parse CA root: " ⧺ root))
      else lin.key_pair_error (or_else "" (get secret.entries "tls.crt"))
          (or_else "" (get secret.entries "tls.key"))

  abbrev pub secure : ClusterRef → M Bool
  secure ref = if ref.client_secret_name == "" then pure false else (do
    secret ← ask (get_secret ref.client_secret_name) (lin.secret ref.client_secret_name)
    ca_root ← ca_reference_to_cert ref.ca_reference
    fail_if (tls_error secret ca_root)
    pure true)

  abbrev pub endpoints_of : ClusterRef → Option String → M (Option String)
  endpoints_of ref (some url) = pure (some url)
  endpoints_of ref none =
      ask (list_services ref.name) (λ log. found_endpoint (lin.services ref.name log))

  abbrev pub client_at : ClusterRef → Option String → M (Option LinstorClient)
  client_at ref none = pure none
  client_at ref (some url) = do
    is_secured ← secure ref
    fail_if lin.client_error
    pure (some (record { endpoints = url; is_secured = is_secured }))

  -- `NewClientForCluster`; `none` is the nil client
  unfoldable pub new_client_for_cluster : ClusterRef → M (Option LinstorClient)
  new_client_for_cluster ref = endpoints_of ref ref.external_controller >>= client_at ref
