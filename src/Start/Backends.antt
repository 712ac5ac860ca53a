-- ===== src/Start/Backends.antt =====
-- proxyd.go: the loop of `Start` that makes the backends, `validateReceiptsTarget`, and
-- `configureBackendTLS` with tls.go. A TLS configuration is only read for its errors: the model's
-- backend has none.
use bsc_builder_proxyd.Base.{
  ℕ, suc, Bool, ◌||◌, not, List, [], ◌∷◌, ◌++◌, String, if◌then◌else◌, eqb, string_eq, ltb, ◌==◌,
}
use bsc_builder_proxyd.Backend.{
  Backend, BackendOpt, with_basic_auth, with_headers, with_timeout, with_max_retries,
  with_max_response_size, with_out_of_service_duration, with_max_rps, with_max_ws_conns,
  with_stripped_trailing_xff, with_proxyd_ip, with_consensus_skip_peer_count_check,
  with_consensus_forced_candidate, with_weight, with_max_degraded_latency_threshold,
  with_max_latency_threshold, with_max_error_rate_threshold, with_consensus_receipt_target,
  new_backend,
}
use bsc_builder_proxyd.Config.{BackendOptions, BackendConfig}
use bsc_builder_proxyd.Start.{
  Outcome, ok, err, ◌>>=◌, ◌>>◌, guard, or_err, no_rpc_url, invalid_receipts_target, bad_tls_files,
  Env, from_env, seconds_to_duration,
}

abbrev pub is_receipts_target : String → Bool
is_receipts_target val =
    eqb val "debug_getRawReceipts"
    || (eqb val "alchemy_getTransactionReceipts"
        || (eqb val "eth_getBlockReceipts" || eqb val "parity_getBlockReceipts"))

abbrev or_default : String → String
or_default val = if eqb val "" then "debug_getRawReceipts" else val

unfoldable pub validate_receipts_target : String → Outcome String
validate_receipts_target val =
    if is_receipts_target (or_default val)
    then ok (or_default val)
    else err (invalid_receipts_target (or_default val))

unfoldable pub create_tls_client : Env → String → Outcome (Unit {0})
create_tls_client env ca = do
  pem ← or_err (env.read_file ca) bad_tls_files
  guard (env.append_certs_from_pem pem) bad_tls_files

unfoldable pub configure_backend_tls : Env → BackendConfig → Outcome (Unit {0})
configure_backend_tls env cfg = if eqb cfg.ca_file "" then ok tt else do
  create_tls_client env cfg.ca_file
  guard
      (eqb cfg.client_cert_file ""
        || (eqb cfg.client_key_file ""
            || env.load_key_pair cfg.client_cert_file cfg.client_key_file))
      bad_tls_files

abbrev opt_if : Bool → BackendOpt → List BackendOpt
opt_if b o = if b then o ∷ [] else []

-- The options that all backends share.
unfoldable pub shared_opts : BackendOptions → List BackendOpt
shared_opts o =
    opt_if (not (o.response_timeout_seconds == 0))
      (with_timeout (seconds_to_duration o.response_timeout_seconds))
    ++ opt_if (not (o.max_retries == 0)) (with_max_retries o.max_retries)
    ++ opt_if (not (o.max_response_size_bytes == 0))
        (with_max_response_size o.max_response_size_bytes)
    ++ opt_if (not (o.out_of_service_seconds == 0))
        (with_out_of_service_duration (seconds_to_duration o.out_of_service_seconds))
    ++ opt_if (ltb 0 o.max_degraded_latency_threshold)
        (with_max_degraded_latency_threshold o.max_degraded_latency_threshold)
    ++ opt_if (ltb 0 o.max_latency_threshold) (with_max_latency_threshold o.max_latency_threshold)
    ++ opt_if (ltb 0 o.max_error_rate_threshold.0)
        (with_max_error_rate_threshold o.max_error_rate_threshold)

unfoldable pub basic_auth : Env → BackendConfig → Outcome (List BackendOpt)
basic_auth env cfg =
    if eqb cfg.password ""
    then ok []
    else do password ← from_env env cfg.password; ok (with_basic_auth cfg.username password ∷ [])

unfoldable pub read_headers : Env → List (String × String) → Outcome (List (String × String))
read_headers env [] = ok []
read_headers env ((name, value) ∷ hs) = do
  v ← from_env env value
  rest ← read_headers env hs
  ok ((name, v) ∷ rest)

abbrev after_headers : Env → BackendConfig → String → List BackendOpt
after_headers env cfg target =
    opt_if cfg.strip_trailing_xff with_stripped_trailing_xff
    ++ with_proxyd_ip (env.getenv "PROXYD_IP")
      ∷ with_consensus_skip_peer_count_check cfg.consensus_skip_peer_count_check
      ∷ with_consensus_forced_candidate cfg.consensus_forced_candidate
      ∷ with_weight cfg.weight
      ∷ with_consensus_receipt_target target
      ∷ []

-- All options of a backend, in order.
unfoldable pub backend_opts :
    Env
    → BackendOptions
    → BackendConfig
    → List BackendOpt
    → List (String × String)
    → String
    → List BackendOpt
backend_opts env options cfg auth headers target =
    shared_opts options
    ++ opt_if (not (cfg.max_rps == 0)) (with_max_rps cfg.max_rps)
    ++ opt_if (not (cfg.max_ws_conns == 0)) (with_max_ws_conns cfg.max_ws_conns)
    ++ auth
    ++ with_headers headers ∷ after_headers env cfg target

-- One backend; `id` stands for the pointer to it.
unfoldable pub make_backend : Env → BackendOptions → ℕ → String → BackendConfig → Outcome Backend
make_backend env options id name cfg = do
  rpc_url ← from_env env cfg.rpc_url
  ws_url ← from_env env cfg.ws_url
  guard (not (eqb rpc_url "")) (no_rpc_url name)
  auth ← basic_auth env cfg
  headers ← read_headers env cfg.headers
  configure_backend_tls env cfg
  receipts ← from_env env cfg.consensus_receipts_target
  target ← validate_receipts_target receipts
  ok (new_backend id name rpc_url ws_url (backend_opts env options cfg auth headers target))

unfoldable pub make_backends :
    Env → BackendOptions → ℕ → List (String × BackendConfig) → Outcome (List (String × Backend))
make_backends env options id [] = ok []
make_backends env options id ((name, cfg) ∷ cfgs) = do
  b ← make_backend env options id name cfg
  rest ← make_backends env options (suc id) cfgs
  ok ((name, b) ∷ rest)
