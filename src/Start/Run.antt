-- ===== src/Start/Run.antt =====
-- proxyd.go, `Start` as a whole. `range` is the order in which Go ranges over the backend groups when it
-- starts their pollers. The listeners, each in a goroutine, end the process when they fail; here it
-- is only recorded which of them are started.
use bsc_builder_proxyd.Base.{ℕ, Bool, ◌||◌, not, List, [], String, Option, ◌==◌, is_some}
use bsc_builder_proxyd.Config.{Config}
use bsc_builder_proxyd.Start.{
  Outcome, ok, ◌>>=◌, ◌>>◌, guard, limits_without_redis, ws_port_alone, RedisClient, Env,
  connect_redis, connect_redis_read, auth_of, check_config, check_sender_limit, Messages,
  messages_of, concurrency,
}
use bsc_builder_proxyd.Start.Backends.{make_backends}
use bsc_builder_proxyd.Start.Groups.{StartedGroup, make_groups, find_ws_group, check_mappings}
use bsc_builder_proxyd.Start.Serving.{
  choose_cache, choose_limiter, resolve_auth, ProxyServer, new_server,
}
use bsc_builder_proxyd.Start.Pollers.{StartedPoller, start_groups}

-- The proxy as it runs after `Start`.
pub record Started : Type 0 where
  pub server : ProxyServer
  pub pollers : List (String × StartedPoller)
  pub messages : Messages
  pub max_concurrent_rpcs : ℕ
  pub max_concurrent_consensus_rpcs : ℕ
  pub serves_rpc : Bool
  pub serves_ws : Bool

abbrev pub Regroup : Type 0
Regroup = List (String × StartedGroup) → List (String × StartedGroup)

-- The clients of Redis.
pub record Clients : Type 0 where
  pub primary : Option RedisClient
  pub reader : Option RedisClient

unfoldable pub connect : Env → Config → Outcome Clients
connect env cfg = do
  primary ← connect_redis env cfg.redis
  reader ← connect_redis_read env cfg.redis primary
  guard (is_some primary || not cfg.rate_limit.use_redis) limits_without_redis
  ok (record { primary = primary; reader = reader })

-- The groups that requests go to, and the one for websockets.
pub record Topology : Type 0 where
  pub groups : List (String × StartedGroup)
  pub ws_group : Option StartedGroup

unfoldable pub lay_out : Env → Config → Outcome Topology
lay_out env cfg = do
  backends ← make_backends env cfg.backend_options 0 cfg.backends
  groups ← make_groups backends cfg.backend_groups
  ws_group ← find_ws_group groups cfg.ws_backend_group
  guard (is_some ws_group || cfg.server.ws_port == 0) ws_port_alone
  check_mappings groups cfg.rpc_method_mappings
  ok (record { groups = groups; ws_group = ws_group })

unfoldable pub serve : Env → Config → Clients → Topology → Outcome ProxyServer
serve env cfg clients t = do
  auth ← resolve_auth env (auth_of cfg.authentication) []
  new_server env cfg t.groups t.ws_group auth
      (choose_cache cfg.cache cfg.redis clients.primary clients.reader)
      (choose_limiter cfg.rate_limit cfg.redis clients.primary)

unfoldable pub start : Env → Regroup → Config → Outcome Started
start env range cfg = do
  check_config cfg
  clients ← connect env cfg
  check_sender_limit cfg.sender_rate_limit
  t ← lay_out env cfg
  server ← serve env cfg clients t
  pollers ← start_groups env cfg.backend_groups (range t.groups)
  ok (record {
    server = server;
    pollers = pollers;
    messages = messages_of cfg;
    max_concurrent_rpcs = concurrency cfg.server.max_concurrent_rpcs;
    max_concurrent_consensus_rpcs = concurrency cfg.server.max_concurrent_consensus_rpcs;
    serves_rpc = not (cfg.server.rpc_port == 0);
    serves_ws = not (cfg.server.ws_port == 0);
  })
