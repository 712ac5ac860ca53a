-- ===== src/Start/Pollers.antt =====
-- proxyd.go: the loop of `Start` that makes a poller for each group that is aware of consensus; and
-- consensus_tracker.go, the options of the tracker on Redis.
use Prim.Native.String as Text
use bsc_builder_proxyd.Base.{
  ℕ, Bool, true, false, not, List, [], ◌∷◌, ◌++◌, String, Option, none, some, if◌then◌else◌, eqb,
  string_eq, ltb, lookup,
}
use bsc_builder_proxyd.Consensus.{
  ConsensusPoller, ConsensusOpt, with_ban_period, with_max_update_threshold, with_max_block_lag,
  with_max_block_range, with_min_peer_count, with_poller_interval, new_consensus_poller,
}
use bsc_builder_proxyd.Tracker.{RedisConsensusTracker, new_redis_tracker}
use bsc_builder_proxyd.Config.{
  BackendGroupConfig, Validated, validated, both_defined, validate_routing_strategy,
}
use bsc_builder_proxyd.Start.{
  Outcome, ok, exits, panics, ◌>>=◌, ◌>>◌, both_strategies, no_ha_redis, invalid_strategy,
  no_fallback_entry, RedisClient, Env, new_redis_client, check_redis_connection,
}
use bsc_builder_proxyd.Start.Groups.{StartedGroup}

-- The tracker on Redis with its client and its namespace.
pub record SharedTracker : Type 0 where
  pub tracker : RedisConsensusTracker
  pub client : RedisClient
  pub namespace : String

-- `bg.Consensus`; without a shared tracker the poller's own is in memory. A poller that does not run
-- has the handler that does nothing.
pub record StartedPoller : Type 0 where
  pub poller : ConsensusPoller
  pub shared : Option SharedTracker
  pub runs : Bool

pub data TrackerOpt : Type 0 where
  with_lock_period with_heartbeat_interval : ℕ → TrackerOpt

unfoldable pub apply_tracker_opt : TrackerOpt → RedisConsensusTracker → RedisConsensusTracker
apply_tracker_opt (with_lock_period t) ct = record ct { lock_period = t }
apply_tracker_opt (with_heartbeat_interval t) ct = record ct { heartbeat_interval = t }

unfoldable pub new_redis_consensus_tracker : List TrackerOpt → RedisConsensusTracker
new_redis_consensus_tracker opts = apply_all opts new_redis_tracker
  where
    apply_all : List TrackerOpt → RedisConsensusTracker → RedisConsensusTracker
    apply_all [] ct = ct
    apply_all (o ∷ os) ct = apply_all os (apply_tracker_opt o ct)

abbrev if_positive {ℓ} : {A : Type ℓ} → (ℕ → A) → ℕ → List A
if_positive f n = if ltb 0 n then f n ∷ [] else []

unfoldable pub consensus_opts : BackendGroupConfig → List ConsensusOpt
consensus_opts cfg =
    if_positive with_ban_period cfg.consensus_ban_period
    ++ if_positive with_max_update_threshold cfg.consensus_max_update_threshold
    ++ if_positive with_max_block_lag cfg.consensus_max_block_lag
    ++ if_positive with_min_peer_count cfg.consensus_min_peer_count
    ++ if_positive with_max_block_range cfg.consensus_max_block_range
    ++ if_positive with_poller_interval cfg.consensus_poller_interval

-- Every backend of the configuration has to be marked in the group.
unfoldable pub check_fallbacks : List (String × Bool) → List String → Outcome (Unit {0})
check_fallbacks marks [] = ok tt
check_fallbacks marks (be ∷ bes) = elim (lookup be marks) [
  | none ↦ exits (no_fallback_entry be)
  | some fallback ↦ check_fallbacks marks bes
]

unfoldable pub share_tracker : Env → String → BackendGroupConfig → Outcome (Option SharedTracker)
share_tracker env name cfg =
    if not cfg.consensus_ha
    then ok none
    else if eqb cfg.consensus_ha_redis.url ""
    then exits no_ha_redis
    else do
      client ← new_redis_client env cfg.consensus_ha_redis.url cfg.consensus_ha_redis.redis_cluster
      check_redis_connection env client
      ok (
          some (record {
            tracker = new_redis_consensus_tracker (
                if_positive with_lock_period cfg.consensus_ha_lock_period
                ++ if_positive with_heartbeat_interval cfg.consensus_ha_heartbeat_interval);
            client = client;
            namespace = Text.◌++◌ cfg.consensus_ha_redis.namespace (Text.◌++◌ ":" name);
          }))

unfoldable pub make_poller : Env → BackendGroupConfig → StartedGroup → Outcome StartedPoller
make_poller env cfg g = do
  check_fallbacks g.group.fallback_backends cfg.backends
  shared ← share_tracker env g.group.name cfg
  ok (record {
    poller = new_consensus_poller g.group (consensus_opts cfg);
    shared = shared;
    runs = not (eqb cfg.consensus_async_handler "noop");
  })

abbrev pub poller_if :
    Env → String → BackendGroupConfig → StartedGroup → Validated → Outcome (Option StartedPoller)
poller_if env name cfg g both_defined = exits both_strategies
poller_if env name cfg g (validated strategy false) = exits (invalid_strategy name)
poller_if env name cfg g (validated strategy true) =
    if not (eqb strategy "consensus_aware")
    then ok none
    else do p ← make_poller env cfg g; ok (some p)

-- A group of the server, with the configuration of its name.
unfoldable pub start_group :
    Env → String → BackendGroupConfig → StartedGroup → Outcome (Option StartedPoller)
start_group env name cfg g = poller_if env name cfg g (validate_routing_strategy cfg)

abbrev pub add_poller :
    String → Option StartedPoller → List (String × StartedPoller) → List (String × StartedPoller)
add_poller name none ps = ps
add_poller name (some p) ps = (name, p) ∷ ps

-- The loop over the groups; a group without a configuration would be a nil pointer.
unfoldable pub start_groups :
    Env
    → List (String × BackendGroupConfig)
    → List (String × StartedGroup)
    → Outcome (List (String × StartedPoller))
start_groups env cfgs [] = ok []
start_groups env cfgs ((name, g) ∷ gs) = elim (lookup name cfgs) [
  | none ↦ panics
  | some cfg ↦ do
    p ← start_group env name cfg g
    rest ← start_groups env cfgs gs
    ok (add_poller name p rest)
]
