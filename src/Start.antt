-- ===== src/Start.antt =====
-- proxyd.go and redis.go: what `Start` does first. The environment of the process is the parameter
-- `Env`: its variables, what go-redis accepts and reaches, its files, and what regexp compiles.
-- `log.Crit` ends the process.
pub mod Backends
pub mod Groups
pub mod Serving
pub mod Pollers
pub mod Run
pub mod Steps
pub mod Sound
pub mod Marks
pub mod Members
pub mod Routable
pub mod Reach
pub mod Secrets
pub mod Watched
pub mod Domains
use bsc_builder_proxyd.Base.{
  ℕ, ◌*◌, ◌≡◌, ◌≢◌, refl, Bool, true, false, ◌||◌, not, List, [], ◌∷◌, String, Option, none, some,
  if◌then◌else◌, eqb, string_eq, is_empty, ltb, ◌==◌, is_some,
}
use bsc_builder_proxyd.Window.{second}
use bsc_builder_proxyd.Rpc.{
  RpcErr, err_over_rate_limit, err_method_not_whitelisted, err_too_many_batch_requests,
}
use bsc_builder_proxyd.Server.Access.{Pattern}
use bsc_builder_proxyd.Config.{Config, RedisConfig, SenderRateLimitConfig, read_from_env_or_config}

pub data StartError : Type 0 where
  no_backends_defined no_groups_defined no_mappings_defined none_as_auth_key bad_redis_url
        redis_unreachable read_url_alone limits_without_redis bad_sender_limit short_sender_interval
        ws_port_alone bad_tls_files :
      StartError
  variable_not_found no_rpc_url invalid_receipts_target undefined_backend no_ws_group
        undefined_group bad_pattern :
      String → StartError
  fallbacks_mismatch : ℕ → ℕ → String → StartError

-- Why `log.Crit` ended the process.
pub data Crit : Type 0 where
  both_strategies no_ha_redis : Crit
  invalid_strategy no_fallback_entry : String → Crit

-- How a step of the start ends.
pub data Outcome {ℓ} (S : Type ℓ) : Type ℓ where
  panics : Outcome S
  exits : Crit → Outcome S
  err : StartError → Outcome S
  ok : S → Outcome S

infixl 5 ◌>>=◌
abbrev pub ◌>>=◌ {ℓ κ} : {S : Type ℓ} {T : Type κ} → Outcome S → (S → Outcome T) → Outcome T
panics >>= next = panics
exits reason >>= next = exits reason
err why >>= next = err why
ok state >>= next = next state

-- A refusal, unless the test holds.
abbrev pub guard : Bool → StartError → Outcome (Unit {0})
guard holds why = elim holds [ false ↦ err why | true ↦ ok tt ]

infixl 5 ◌>>◌
abbrev pub ◌>>◌ {κ} : {T : Type κ} → Outcome (Unit {0}) → Outcome T → Outcome T
step >> next = step >>= λ done. next

abbrev pub or_err {ℓ} : {A : Type ℓ} → Option A → StartError → Outcome A
or_err none e = err e
or_err (some a) e = ok a

-- A client of Redis is what it was made from.
pub record RedisClient : Type 0 where
  pub url : String
  pub cluster : Bool

pub record Env : Type 0 where
  pub getenv : String → String
  pub parse_url : String → Bool
  pub parse_cluster_url : String → Bool
  pub ping : RedisClient → Bool
  pub read_file : String → Option String
  pub append_certs_from_pem : String → Bool
  pub load_key_pair : String → String → Bool
  pub compile : String → Option Pattern

unfoldable pub from_env : Env → String → Outcome String
from_env env value = or_err (read_from_env_or_config env.getenv value) (variable_not_found value)

unfoldable pub new_redis_client : Env → String → Bool → Outcome RedisClient
new_redis_client env url cluster = do
  guard (if cluster then env.parse_cluster_url url else env.parse_url url) bad_redis_url
  ok (record { url = url; cluster = cluster })

unfoldable pub check_redis_connection : Env → RedisClient → Outcome (Unit {0})
check_redis_connection env client = guard (env.ping client) redis_unreachable

-- A failed check is only a warning where memory may take over.
unfoldable pub check_redis : Env → Bool → RedisClient → Outcome (Unit {0})
check_redis env fallback_to_memory client =
    if fallback_to_memory then ok tt else check_redis_connection env client

unfoldable pub connect_redis : Env → RedisConfig → Outcome (Option RedisClient)
connect_redis env cfg = if eqb cfg.url "" then ok none else do
  url ← from_env env cfg.url
  client ← new_redis_client env url cfg.redis_cluster
  check_redis env cfg.fallback_to_memory client
  ok (some client)

-- The client for reading; it is the primary client whose connection is checked.
unfoldable pub connect_replica : Env → RedisConfig → RedisClient → Outcome (Option RedisClient)
connect_replica env cfg primary = do
  url ← from_env env cfg.read_url
  client ← new_redis_client env url cfg.redis_cluster
  check_redis env cfg.fallback_to_memory primary
  ok (some client)

unfoldable pub connect_redis_read :
    Env → RedisConfig → Option RedisClient → Outcome (Option RedisClient)
connect_redis_read env cfg primary =
    if eqb cfg.read_url ""
    then ok primary
    else elim primary [ none ↦ err read_url_alone | some client ↦ connect_replica env cfg client ]

abbrev has_key : String → List (String × String) → Bool
has_key k [] = false
has_key k ((j, v) ∷ m) = eqb j k || has_key k m

abbrev pub auth_of : Option (List (String × String)) → List (String × String)
auth_of none = []
auth_of (some m) = m

-- The checks before the first connection.
unfoldable pub check_config : Config → Outcome (Unit {0})
check_config cfg = do
  guard (not (is_empty cfg.backends)) no_backends_defined
  guard (not (is_empty cfg.backend_groups)) no_groups_defined
  guard (not (is_empty cfg.rpc_method_mappings)) no_mappings_defined
  guard (not (has_key "none" (auth_of cfg.authentication))) none_as_auth_key

unfoldable pub check_sender_limit : SenderRateLimitConfig → Outcome (Unit {0})
check_sender_limit cfg = if not cfg.enabled then ok tt else do
  guard (ltb 0 cfg.limit) bad_sender_limit
  guard (not (ltb cfg.interval second)) short_sender_interval

-- The errors that a configuration words; they are changed before what can still fail.
pub record Messages : Type 0 where
  pub over_rate_limit : RpcErr
  pub method_not_whitelisted : RpcErr
  pub too_many_batch_requests : RpcErr

abbrev worded : String → RpcErr → RpcErr
worded message e = if eqb message "" then e else record e { message = message }

unfoldable pub messages_of : Config → Messages
messages_of cfg = record {
  over_rate_limit = worded cfg.rate_limit.error_message err_over_rate_limit;
  method_not_whitelisted = worded cfg.whitelist_error_message err_method_not_whitelisted;
  too_many_batch_requests = worded cfg.batch_config.error_message err_too_many_batch_requests;
}

unfoldable pub seconds_to_duration : ℕ → ℕ
seconds_to_duration seconds = seconds * second

-- The size of a semaphore; 0 is no limit.
unfoldable pub concurrency : ℕ → ℕ
concurrency n = if n == 0 then 9223372036854775807 else n

-- A step that went well, and the one after it.
pub >>=-eq-ok {ℓ κ} :
    {S : Type ℓ} {T : Type κ} (step : Outcome S) (next : S → Outcome T) {end_state : T}
    → (step >>= next) ≡ ok end_state
    → (state : S) × (step ≡ ok state) × (next state ≡ ok end_state)
>>=-eq-ok panics next e = absurd (cc)
>>=-eq-ok (exits reason) next e = absurd (cc)
>>=-eq-ok (err why) next e = absurd (cc)
>>=-eq-ok (ok state) next e = (state, refl, e)

pub guard-eq-ok :
    (holds : Bool) (why : StartError) (u : Unit {0}) → guard holds why ≡ ok u → holds ≡ true
guard-eq-ok false why u e = absurd (cc)
guard-eq-ok true why u e = refl

pub ok_inj {ℓ} : {A : Type ℓ} {a b : A} → ok a ≡ ok b → a ≡ b
ok_inj h = cc

pub or_err-eq-ok {ℓ} :
    {A : Type ℓ} (o : Option A) (e : StartError) {a : A} → or_err o e ≡ ok a → o ≡ some a
or_err-eq-ok none e h = absurd (cc)
or_err-eq-ok (some a) e h = cc
