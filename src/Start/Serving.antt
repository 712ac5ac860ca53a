-- ===== src/Start/Serving.antt =====
-- server.go, `NewServer`, and what `Start` makes for it in proxyd.go: the cache, the limiters and the
-- secrets of the clients. An HTTP server and a websocket upgrader have no state here but whether they
-- listen and whether any origin is let in.
use bsc_builder_proxyd.Base.{
  ℤ, pos, ltb_ℤ, ℕ, ◌*◌, Bool, false, not, List, [], ◌∷◌, String, Option, none, some, if◌then◌else◌,
  string_eq, ltb, ◌==◌, insert,
}
use bsc_builder_proxyd.Window.{second}
use bsc_builder_proxyd.Rewriter.{eqb_ℤ}
use bsc_builder_proxyd.StringSet.{StringSet, new_string_set_from_strings}
use bsc_builder_proxyd.Server.Access as Access
use bsc_builder_proxyd.Server.Access.{Pattern, Override, Limiter, made, Limits, new_limits}
use bsc_builder_proxyd.Server.Handle.{EthCallRule}
use bsc_builder_proxyd.Config.{
  Config, CacheConfig, RedisConfig, RateLimitConfig, RateLimitMethodOverride, RateLimitExemptOrigin,
  SenderRateLimitConfig,
}
use bsc_builder_proxyd.Start.{
  Outcome, ok, ◌>>=◌, or_err, bad_pattern, RedisClient, Env, from_env, seconds_to_duration,
}
use bsc_builder_proxyd.Start.Groups.{StartedGroup}

-- The cache below the compression, with the clients of Redis for writing and for reading.
pub data CacheChoice : Type 0 where
  no_cache memory_cache : CacheChoice
  redis_cache redis_with_memory : RedisClient → Option RedisClient → String → ℕ → CacheChoice

unfoldable pub choose_cache :
    CacheConfig → RedisConfig → Option RedisClient → Option RedisClient → CacheChoice
choose_cache cfg redis none reader = if cfg.enabled then memory_cache else no_cache
choose_cache cfg redis (some client) reader =
    let ttl = if cfg.ttl == 0 then 3600 * second else cfg.ttl in
    if not cfg.enabled
    then no_cache
    else if redis.fallback_to_memory
    then redis_with_memory client reader redis.namespace ttl
    else redis_cache client reader redis.namespace ttl

-- What `limiterFactory` makes; the client may be nil.
pub data LimiterKind : Type 0 where
  memory_limiter : LimiterKind
  redis_limiter redis_limiter_with_memory : Option RedisClient → LimiterKind

unfoldable pub choose_limiter : RateLimitConfig → RedisConfig → Option RedisClient → LimiterKind
choose_limiter cfg redis client =
    if not cfg.use_redis
    then memory_limiter
    else if redis.fallback_to_memory
    then redis_limiter_with_memory client
    else redis_limiter client

unfoldable pub resolve_auth :
    Env → List (String × String) → List (String × String) → Outcome (List (String × String))
resolve_auth env [] resolved = ok resolved
resolve_auth env ((secret, alias) ∷ auth) resolved = do
  s ← from_env env secret
  resolve_auth env auth (insert s alias resolved)

unfoldable pub compile_all : Env → List String → Outcome (List Pattern)
compile_all env [] = ok []
compile_all env (s ∷ ss) = do
  pattern_of_s ← or_err (env.compile s) (bad_pattern s)
  rest ← compile_all env ss
  ok (pattern_of_s ∷ rest)

abbrev of_methods : List (String × RateLimitMethodOverride) → List (String × Override)
of_methods [] = []
of_methods ((method, o) ∷ os) =
    (method, record { limit = o.limit; interval = o.interval; global = o.global }) ∷ of_methods os

abbrev of_origins : List (String × RateLimitExemptOrigin) → List (String × Override)
of_origins [] = []
of_origins ((origin, o) ∷ os) =
    (origin, record { limit = o.limit; interval = o.interval; global = false }) ∷ of_origins os

-- The patterns are compiled only with a base rate; otherwise no list of them is read.
unfoldable pub compile_limits : Env → RateLimitConfig → Outcome Access.RateLimitConfig
compile_limits env cfg = do
  origins ← if ltb 0 cfg.base_rate then compile_all env cfg.exempt_origins else ok []
  agents ← if ltb 0 cfg.base_rate then compile_all env cfg.exempt_user_agents else ok []
  ok (record {
    base_rate = cfg.base_rate;
    base_interval = cfg.base_interval;
    exempt_origins = origins;
    exempt_user_agents = agents;
    exempt_base_rate = cfg.exempt_base_rate;
    exempt_base_interval = cfg.exempt_base_interval;
    exempt_overrides = of_origins cfg.exempt_overrides;
    method_overrides = of_methods cfg.method_overrides;
    ip_header_override = cfg.ip_header_override;
  })

-- The `Server` that NewServer returns.
pub record ProxyServer : Type 0 where
  pub backend_groups : List (String × StartedGroup)
  pub ws_backend_group : Option StartedGroup
  pub ws_method_whitelist : StringSet
  pub rpc_method_mappings : List (String × String)
  pub domain_rpc_method_mappings : List (String × List (String × String))
  pub max_body_size : ℤ
  pub enable_request_log : Bool
  pub max_request_body_log_len : ℕ
  pub authenticated_paths : List (String × String)
  pub timeout : ℕ
  pub max_upstream_batch_size : ℤ
  pub max_batch_size : ℤ
  pub enable_served_by_header : Bool
  pub any_origin : Bool
  pub cache : CacheChoice
  pub limiter_kind : LimiterKind
  pub limits : Limits
  pub sender_lim : Option Limiter
  pub allowed_chain_ids : List ℕ
  pub eth_call_override_rules : List EthCallRule

abbrev pub or_else : ℕ → ℕ → ℕ
or_else n default_n = if n == 0 then default_n else n

-- Only 0 is replaced; a negative size stays.
abbrev pub or_else_ℤ : ℤ → ℕ → ℤ
or_else_ℤ n default_n = if eqb_ℤ n (pos 0) then pos default_n else n

-- The default is 100 requests, the hard limit 1000.
unfoldable pub batch_limit : ℤ → ℤ
batch_limit n = let size = or_else_ℤ n 100 in if ltb_ℤ (pos 1000) size then pos 1000 else size

unfoldable pub sender_limiter : SenderRateLimitConfig → Option Limiter
sender_limiter cfg = if cfg.enabled then some (made cfg.interval cfg.limit "senders") else none

-- The sizes that are 0 get their defaults: 256 KiB, 10 seconds and 10 requests.
unfoldable pub new_server :
    Env
    → Config
    → List (String × StartedGroup)
    → Option StartedGroup
    → List (String × String)
    → CacheChoice
    → LimiterKind
    → Outcome ProxyServer
new_server env cfg groups ws_group auth cache limiter_kind = do
  limits ← compile_limits env cfg.rate_limit
  ok (record {
    backend_groups = groups;
    ws_backend_group = ws_group;
    ws_method_whitelist = new_string_set_from_strings cfg.ws_method_whitelist;
    rpc_method_mappings = cfg.rpc_method_mappings;
    domain_rpc_method_mappings = cfg.domain_rpc_method_mappings;
    max_body_size = or_else_ℤ cfg.server.max_body_size_bytes (256 * 1024);
    enable_request_log = cfg.server.enable_request_log;
    max_request_body_log_len = cfg.server.max_request_body_log_len;
    authenticated_paths = auth;
    timeout = or_else (seconds_to_duration cfg.server.timeout_seconds) (10 * second);
    max_upstream_batch_size = or_else_ℤ cfg.server.max_upstream_batch_size 10;
    max_batch_size = batch_limit cfg.batch_config.max_size;
    enable_served_by_header = cfg.server.enable_served_by_header;
    any_origin = cfg.server.allow_all_origins;
    cache = cache;
    limiter_kind = limiter_kind;
    limits = new_limits limits;
    sender_lim = sender_limiter cfg.sender_rate_limit;
    allowed_chain_ids = cfg.sender_rate_limit.allowed_chain_ids;
    eth_call_override_rules = cfg.eth_call_override_rules;
  })
