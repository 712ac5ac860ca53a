-- ===== src/Start/Sound.antt =====
-- proxyd.go: what holds of the backends and of the groups that `Start` makes.
use bsc_builder_proxyd.Base.{
  ℕ, suc, ◌≡◌, refl, ap, ◌∙◌, subst, Bool, true, false, not, List, [], ◌∷◌, ◌++◌, String, arith,
  eqb, string_eq, All,
}
use bsc_builder_proxyd.Backend.{Backend, BackendOpt, apply_opt, override, new_backend}
use bsc_builder_proxyd.Config.{BackendOptions, BackendConfig}
use bsc_builder_proxyd.Start.{ok, guard, Env, from_env, >>=-eq-ok, guard-eq-ok, ok_inj, no_rpc_url}
use bsc_builder_proxyd.Start.Backends.{
  is_receipts_target, validate_receipts_target, basic_auth, read_headers, configure_backend_tls,
  make_backend, make_backends, backend_opts,
}

-- A backend under its name, with an address and one of the four targets for receipts.
pub record IsSoundBackend (name : String) (b : Backend) : Type 0 where
  pub named : b.name ≡ name
  pub addressed : eqb b.rpc_url "" ≡ false
  pub targets : is_receipts_target b.receipts_target ≡ true

apply_opt_names :
    (o : BackendOpt) (b : Backend)
    → ((apply_opt o b).name ≡ b.name) × ((apply_opt o b).rpc_url ≡ b.rpc_url)
unfolding apply_opt
apply_opt_names (BackendOpt.with_basic_auth u p) b = (refl, refl)
apply_opt_names (BackendOpt.with_headers h) b = (refl, refl)
apply_opt_names (BackendOpt.with_timeout t) b = (refl, refl)
apply_opt_names (BackendOpt.with_max_retries n) b = (refl, refl)
apply_opt_names (BackendOpt.with_max_response_size n) b = (refl, refl)
apply_opt_names (BackendOpt.with_out_of_service_duration t) b = (refl, refl)
apply_opt_names (BackendOpt.with_max_rps n) b = (refl, refl)
apply_opt_names (BackendOpt.with_max_ws_conns n) b = (refl, refl)
apply_opt_names BackendOpt.with_stripped_trailing_xff b = (refl, refl)
apply_opt_names (BackendOpt.with_proxyd_ip ip) b = (refl, refl)
apply_opt_names (BackendOpt.with_consensus_skip_peer_count_check s) b = (refl, refl)
apply_opt_names (BackendOpt.with_consensus_forced_candidate f) b = (refl, refl)
apply_opt_names (BackendOpt.with_weight n) b = (refl, refl)
apply_opt_names (BackendOpt.with_max_degraded_latency_threshold t) b = (refl, refl)
apply_opt_names (BackendOpt.with_max_latency_threshold t) b = (refl, refl)
apply_opt_names (BackendOpt.with_max_error_rate_threshold r) b = (refl, refl)
apply_opt_names (BackendOpt.with_consensus_receipt_target t) b = (refl, refl)
apply_opt_names (BackendOpt.with_intermittent_network_error_sliding_window w) b = (refl, refl)

override_names :
    (os : List BackendOpt) (b : Backend)
    → ((override os b).name ≡ b.name) × ((override os b).rpc_url ≡ b.rpc_url)
unfolding override
override_names [] b = (refl, refl)
override_names (o ∷ os) b =
    let (n, u) = override_names os (apply_opt o b) in
    let (m, v) = apply_opt_names o b in (n ∙ m, u ∙ v)

-- Whatever the backend was before, the options leave it with this target.
Sets : String → List BackendOpt → Type 0
Sets t os = (b : Backend) → (override os b).receipts_target ≡ t

Sets-append : (t : String) (xs ys : List BackendOpt) → Sets t ys → Sets t (xs ++ ys)
unfolding override Sets
Sets-append t [] ys h = h
Sets-append t (x ∷ xs) ys h = λ b. Sets-append t xs ys h (apply_opt x b)

Sets-cons : (t : String) (x : BackendOpt) (xs : List BackendOpt) → Sets t xs → Sets t (x ∷ xs)
unfolding override Sets
Sets-cons t x xs h = λ b. h (apply_opt x b)

Sets-last : (t : String) → Sets t (BackendOpt.with_consensus_receipt_target t ∷ [])
unfolding override apply_opt Sets
Sets-last t = λ b. refl

is_not : (b : Bool) → not b ≡ true → b ≡ false
is_not true h = absurd (cc)
is_not false h = refl

validate_receipts_target-IsTarget :
    (v t : String) → validate_receipts_target v ≡ ok t → is_receipts_target t ≡ true
unfolding validate_receipts_target
validate_receipts_target-IsTarget v t h = ground (arith, h)

backend_opts-Sets :
    (env : Env) (o : BackendOptions) (cfg : BackendConfig) (auth : List BackendOpt)
    (hs : List (String × String)) (t : String)
    → Sets t (backend_opts env o cfg auth hs t)
unfolding backend_opts Sets override
backend_opts-Sets env o cfg auth hs t = search (Sets-append, Sets-cons, Sets-last)

made_backend :
    (id : ℕ) (name url ws t : String) (os : List BackendOpt)
    → eqb url "" ≡ false
    → is_receipts_target t ≡ true
    → Sets t os
    → IsSoundBackend name (new_backend id name url ws os)
unfolding new_backend Sets
made_backend id name url ws t os u k h =
    let (n, r) = override_names os _ in
    record {
      named = n;
      addressed = ap (λ x. eqb x "") r ∙ u;
      targets = ap is_receipts_target (h _) ∙ k;
    }

make_backend-IsSound :
    (env : Env) (o : BackendOptions) (id : ℕ) (name : String) (cfg : BackendConfig) (b : Backend)
    → make_backend env o id name cfg ≡ ok b
    → IsSoundBackend name b
unfolding make_backend
make_backend-IsSound env o id name cfg b h =
    let (url, a, h1) = >>=-eq-ok (from_env env cfg.rpc_url) _ h in
    let (ws, c, h2) = >>=-eq-ok (from_env env cfg.ws_url) _ h1 in
    let (u, d, h3) = >>=-eq-ok (guard (not (eqb url "")) (no_rpc_url name)) _ h2 in
    let (auth, e, h4) = >>=-eq-ok (basic_auth env cfg) _ h3 in
    let (hs, f, h5) = >>=-eq-ok (read_headers env cfg.headers) _ h4 in
    let (v, g, h6) = >>=-eq-ok (configure_backend_tls env cfg) _ h5 in
    let (r, i, h7) = >>=-eq-ok (from_env env cfg.consensus_receipts_target) _ h6 in
    let (t, j, h8) = >>=-eq-ok (validate_receipts_target r) _ h7 in
    subst (IsSoundBackend name) (ok_inj h8) (
      made_backend id name url ws t _ (is_not _ (guard-eq-ok _ (no_rpc_url name) u d))
        (validate_receipts_target-IsTarget r t j) (backend_opts-Sets env o cfg auth hs t))

-- The backends, each under its name.
abbrev pub AllSound : List (String × Backend) → Type 0
AllSound = All (λ p. IsSoundBackend p.0 p.1)

pub make_backends-AllSound :
    (env : Env) (o : BackendOptions) (id : ℕ) (cfgs : List (String × BackendConfig))
    (bs : List (String × Backend))
    → make_backends env o id cfgs ≡ ok bs
    → AllSound bs
unfolding make_backends
make_backends-AllSound env o id [] bs h = subst (All _) (ok_inj h) tt
make_backends-AllSound env o id ((name, cfg) ∷ cfgs) bs h =
    let (b, a, h1) = >>=-eq-ok (make_backend env o id name cfg) _ h in
    let (rest, c, h2) = >>=-eq-ok (make_backends env o (suc id) cfgs) _ h1 in
    subst (All _) (ok_inj h2) (
      make_backend-IsSound env o id name cfg b a,
      make_backends-AllSound env o (suc id) cfgs rest c,
    )
