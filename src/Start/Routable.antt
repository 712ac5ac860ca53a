-- ===== src/Start/Routable.antt =====
-- proxyd.go: where the requests of a started proxy go.
use bsc_builder_proxyd.Base.{
  ℤ, pos, negsuc, zero, suc, false, ltb_ℤ, ltb, inl, inr, ◌⊎◌, refl, Bool-cases, ℕ, ◌≡◌, sym, ap,
  ◌∙◌, subst, true, ◌||◌, not, List, [], ◌∷◌, String, arith, string_eq, is_some, All, lookup,
}
use bsc_builder_proxyd.StringSet.{new_string_set_from_strings}
use bsc_builder_proxyd.Config.{Config}
use bsc_builder_proxyd.Start.{
  ok, guard, Env, >>=-eq-ok, guard-eq-ok, ok_inj, auth_of, undefined_group,
}
use bsc_builder_proxyd.Start.Groups.{StartedGroup, check_mappings}
use bsc_builder_proxyd.Start.Serving.{
  ProxyServer, new_server, compile_limits, resolve_auth, batch_limit, or_else_ℤ, choose_limiter,
}
use bsc_builder_proxyd.Start.Run.{start, Started, Regroup, serve, Topology, Clients}
use bsc_builder_proxyd.Start.Steps.{start-Steps, lay_out-Layout}
use bsc_builder_proxyd.Start.Sound.{make_backends-AllSound}
use bsc_builder_proxyd.Start.Members.{IsSoundGroup, make_groups-All}

abbrev pub Known : List (String × StartedGroup) → List (String × String) → Type 0
Known groups = All (λ p. is_some (lookup p.1 groups) ≡ true)

check_mappings-Known :
    (gs : List (String × StartedGroup)) (ms : List (String × String))
    → check_mappings gs ms ≡ ok tt
    → Known gs ms
unfolding check_mappings
check_mappings-Known gs [] h = tt
check_mappings-Known gs ((method, name) ∷ ms) h =
    let (u, a, h1) = >>=-eq-ok (guard (is_some (lookup name gs)) (undefined_group name)) _ h in
    (guard-eq-ok _ (undefined_group name) u a, check_mappings-Known gs ms h1)

-- A size is positive, or negative as it is configured.
abbrev pub Sized : ℤ → ℤ → Type 0
Sized configured size =
    ((ltb_ℤ configured (pos 0) ≡ true) × (size ≡ configured)) ⊎ (ltb_ℤ (pos 0) size ≡ true)

or_else_ℤ-Sized : (n : ℤ) (d : ℕ) → Sized n (or_else_ℤ n (suc d))
or_else_ℤ-Sized (pos zero) d = inr (ground arith)
or_else_ℤ-Sized (pos (suc m)) d = inr (ground arith)
or_else_ℤ-Sized (negsuc m) d = inl (ground arith, ground arith)

-- What the server takes over from the configuration and from the steps before.
pub record Taken (env : Env) (cfg : Config) (clients : Clients) (t : Topology) (s : ProxyServer)
    : Type 0 where
  pub groups : s.backend_groups ≡ t.groups
  pub ws_group : s.ws_backend_group ≡ t.ws_group
  pub mappings : s.rpc_method_mappings ≡ cfg.rpc_method_mappings
  pub whitelist : s.ws_method_whitelist ≡ new_string_set_from_strings cfg.ws_method_whitelist
  pub upstream : Sized cfg.server.max_upstream_batch_size s.max_upstream_batch_size
  pub batch : s.max_batch_size ≡ batch_limit cfg.batch_config.max_size
  pub limiter : s.limiter_kind ≡ choose_limiter cfg.rate_limit cfg.redis clients.primary
  pub secrets : resolve_auth env (auth_of cfg.authentication) [] ≡ ok s.authenticated_paths

pub serve-Taken :
    (env : Env) (cfg : Config) (clients : Clients) (t : Topology) (s : ProxyServer)
    → serve env cfg clients t ≡ ok s
    → Taken env cfg clients t s
unfolding serve new_server
serve-Taken env cfg clients t s h =
    let (auth, a, h1) = >>=-eq-ok (resolve_auth env (auth_of cfg.authentication) []) _ h in
    let (limits, b, h2) = >>=-eq-ok (compile_limits env cfg.rate_limit) _ h1 in
    let same = ok_inj h2 in
    record {
      groups = ap (λ x. x.backend_groups) (sym same);
      ws_group = ap (λ x. x.ws_backend_group) (sym same);
      mappings = ap (λ x. x.rpc_method_mappings) (sym same);
      whitelist = ap (λ x. x.ws_method_whitelist) (sym same);
      upstream =
          subst (λ x. Sized cfg.server.max_upstream_batch_size x.max_upstream_batch_size) same
            (or_else_ℤ-Sized cfg.server.max_upstream_batch_size 9);
      batch = ap (λ x. x.max_batch_size) (sym same);
      limiter = ap (λ x. x.limiter_kind) (sym same);
      secrets = a ∙ ap (λ x. ok x.authenticated_paths) same;
    }

batch_limit-bounds : (n : ℤ) → Sized n (batch_limit n) × (ltb_ℤ (pos 1000) (batch_limit n) ≡ false)
unfolding batch_limit
batch_limit-bounds (pos zero) = (inr refl, refl)
batch_limit-bounds (pos (suc m)) = elim (Bool-cases (ltb 1000 (suc m))) [
  | inl x ↦ ground (arith, x)
  | inr x ↦ ground (arith, x)
]
batch_limit-bounds (negsuc m) = (inl (ground arith, ground arith), ground arith)

-- A proxy that has started can route: every method of its own mappings is mapped to one of its groups;
-- every group stands under its name, and its backends have an address and one of the four targets
-- for receipts; a proxy that listens for websockets has a group for them; and the limit on the
-- size of a batch is at most 1000, and it and the size of a minibatch are positive unless the
-- configuration has a negative size, which stays.
pub start-IsRoutable :
    (env : Env) (range : Regroup) (cfg : Config) (s : Started)
    → start env range cfg ≡ ok s
    → Known s.server.backend_groups s.server.rpc_method_mappings
      × All (λ p. IsSoundGroup p.0 p.1) s.server.backend_groups
      × ((not s.serves_ws || is_some s.server.ws_backend_group) ≡ true)
      × Sized cfg.server.max_upstream_batch_size s.server.max_upstream_batch_size
      × Sized cfg.batch_config.max_size s.server.max_batch_size
      × (ltb_ℤ (pos 1000) s.server.max_batch_size ≡ false)
start-IsRoutable env range cfg s h =
    let steps = start-Steps env range cfg s h in
    let t = steps.topology in
    let layout = lay_out-Layout env cfg t steps.laid_out in
    let taken = serve-Taken env cfg steps.clients t s.server steps.served in
    let sound =
      make_backends-AllSound env cfg.backend_options 0 cfg.backends layout.backends
        layout.made_backends in
    let bounds = batch_limit-bounds cfg.batch_config.max_size in
    (
      rw (taken.groups, taken.mappings)
          (check_mappings-Known t.groups cfg.rpc_method_mappings layout.mapped),
      rw taken.groups
          (make_groups-All layout.backends sound cfg.backend_groups t.groups layout.made_groups),
      rw (taken.ws_group, steps.listens) (ground (arith, layout.ws_grouped)),
      taken.upstream,
      rw taken.batch bounds.0,
      rw taken.batch bounds.1,
    )
