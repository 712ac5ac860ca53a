-- ===== src/Config.antt =====
-- config.go: the configuration as it is decoded, the values that come from the environment, and the
-- check of a group's routing strategy. Counts, sizes and durations are natural numbers, an error rate
-- is a fraction; a map is an association list in the order in which Go ranges over it.
use Prim.Native.Char.{code}
use bsc_builder_proxyd.Base.{
  ℤ, ℕ, Bool, true, false, ◌&&◌, ◌||◌, not, List, String, Option, none, some, if◌then◌else◌, eqb,
  string_eq, ◌==◌,
}
use bsc_builder_proxyd.Server.Handle.{EthCallRule}

pub record ServerConfig : Type 0 where
  pub rpc_port : ℕ
  pub ws_port : ℕ
  pub max_body_size_bytes : ℤ
  pub max_concurrent_rpcs : ℕ
  pub max_concurrent_consensus_rpcs : ℕ
  pub timeout_seconds : ℕ
  pub max_upstream_batch_size : ℤ
  pub enable_request_log : Bool
  pub max_request_body_log_len : ℕ
  pub enable_served_by_header : Bool
  pub allow_all_origins : Bool

pub record CacheConfig : Type 0 where
  pub enabled : Bool
  pub ttl : ℕ

pub record RedisConfig : Type 0 where
  pub url : String
  pub namespace : String
  pub read_url : String
  pub fallback_to_memory : Bool
  pub redis_cluster : Bool

pub record RateLimitMethodOverride : Type 0 where
  pub limit : ℕ
  pub interval : ℕ
  pub global : Bool

pub record RateLimitExemptOrigin : Type 0 where
  pub limit : ℕ
  pub interval : ℕ

pub record RateLimitConfig : Type 0 where
  pub use_redis : Bool
  pub base_rate : ℕ
  pub base_interval : ℕ
  pub exempt_origins : List String
  pub exempt_user_agents : List String
  pub exempt_base_rate : ℕ
  pub exempt_base_interval : ℕ
  pub exempt_overrides : List (String × RateLimitExemptOrigin)
  pub error_message : String
  pub method_overrides : List (String × RateLimitMethodOverride)
  pub ip_header_override : String

pub record BackendOptions : Type 0 where
  pub response_timeout_seconds : ℕ
  pub max_response_size_bytes : ℕ
  pub max_retries : ℕ
  pub out_of_service_seconds : ℕ
  pub max_degraded_latency_threshold : ℕ
  pub max_latency_threshold : ℕ
  pub max_error_rate_threshold : ℕ × ℕ

pub record BackendConfig : Type 0 where
  pub username : String
  pub password : String
  pub rpc_url : String
  pub ws_url : String
  pub max_rps : ℕ
  pub max_ws_conns : ℕ
  pub ca_file : String
  pub client_cert_file : String
  pub client_key_file : String
  pub strip_trailing_xff : Bool
  pub headers : List (String × String)
  pub weight : ℕ
  pub consensus_skip_peer_count_check : Bool
  pub consensus_forced_candidate : Bool
  pub consensus_receipts_target : String

pub record BackendGroupConfig : Type 0 where
  pub backends : List String
  pub weighted_routing : Bool
  pub routing_strategy : String
  pub multicall_rpc_error_check : Bool
  pub consensus_aware : Bool
  pub consensus_async_handler : String
  pub consensus_poller_interval : ℕ
  pub consensus_ban_period : ℕ
  pub consensus_max_update_threshold : ℕ
  pub consensus_max_block_lag : ℕ
  pub consensus_max_block_range : ℕ
  pub consensus_min_peer_count : ℕ
  pub consensus_ha : Bool
  pub consensus_ha_heartbeat_interval : ℕ
  pub consensus_ha_lock_period : ℕ
  pub consensus_ha_redis : RedisConfig
  pub fallbacks : List String

pub record BatchConfig : Type 0 where
  pub max_size : ℤ
  pub error_message : String

pub record SenderRateLimitConfig : Type 0 where
  pub enabled : Bool
  pub interval : ℕ
  pub limit : ℕ
  pub allowed_chain_ids : List ℕ

-- The metrics server has no part in the rest and is left out. No `authentication` is the nil map.
pub record Config : Type 0 where
  pub ws_backend_group : String
  pub server : ServerConfig
  pub cache : CacheConfig
  pub redis : RedisConfig
  pub rate_limit : RateLimitConfig
  pub backend_options : BackendOptions
  pub backends : List (String × BackendConfig)
  pub batch_config : BatchConfig
  pub authentication : Option (List (String × String))
  pub backend_groups : List (String × BackendGroupConfig)
  pub rpc_method_mappings : List (String × String)
  pub domain_rpc_method_mappings : List (String × List (String × String))
  pub ws_method_whitelist : List String
  pub whitelist_error_message : String
  pub sender_rate_limit : SenderRateLimitConfig
  pub eth_call_override_rules : List EthCallRule

-- A variable of the environment that is not set reads as the empty text; `none` is the error.
abbrev env_value : String → Option String
env_value v = if eqb v "" then none else some v

unfoldable pub read_from_env_or_config : (String → String) → String → Option String
read_from_env_or_config getenv String.[] = some ""
read_from_env_or_config getenv (String.◌∷◌ c s) =
    if code c == b'$'
    then env_value (getenv s)
    else if code c == b'\\'
    then some s
    else some (String.◌∷◌ c s)

-- The verdict with the strategy that the configuration has from then on, or the end of the process.
pub data Validated : Type 0 where
  validated : String → Bool → Validated
  both_defined : Validated

-- The `switch` on the strategy.
unfoldable pub known_strategy : String → Validated
known_strategy s =
    if eqb s "consensus_aware" || (eqb s "multicall" || eqb s "fallback")
    then validated s true
    else if eqb s ""
    then validated "fallback" true
    else validated s false

unfoldable pub validate_routing_strategy : BackendGroupConfig → Validated
validate_routing_strategy b =
    if b.consensus_aware && not (eqb b.routing_strategy "")
    then both_defined
    else known_strategy (if b.consensus_aware then "consensus_aware" else b.routing_strategy)
