-- ===== src/Tests/Starts.antt =====
-- A start with two backends, a group that is aware of consensus, one for sockets, and a secret from the
-- environment.
use mathlib.Core.List.{Permᴰ}
use mathlib.Core.List.Permᴰ
use bsc_builder_proxyd.Base.{
  Any, ℕ, ◌≡◌, ◌≢◌, refl, Bool, true, false, not, ◌||◌, List, [], ◌∷◌, String, none, some,
  if◌then◌else◌, eqb, string_eq, lookup, insert, All, is_some, pos, ltb_ℤ,
}
use bsc_builder_proxyd.Rpc.{
  RpcReq, other, validate_rpc_req, is_valid_id, starts_quoted, ends_quoted, starts_plain,
}
use bsc_builder_proxyd.Backend.{Backend, new_backend}
use bsc_builder_proxyd.Server.{get_rpc_method_mappings, first_non_empty}
use bsc_builder_proxyd.Server.Access.{
  HttpRequest, RequestContext, populate_context, forwarded_for, split,
}
use bsc_builder_proxyd.Server.Batch.{
  Service, queue, classify, classify_req, classify_valid, classify_routed, classify_sender,
}
use bsc_builder_proxyd.Config.{
  Config, BackendConfig, BackendGroupConfig, RedisConfig, read_from_env_or_config,
  validate_routing_strategy, known_strategy,
}
use bsc_builder_proxyd.Start.{
  ok, err, exits, panics, Env, from_env, check_config, check_sender_limit, connect_redis,
  connect_redis_read, auth_of, seconds_to_duration,
}
use bsc_builder_proxyd.Start as Start
use bsc_builder_proxyd.Start.Backends.{
  make_backends, make_backend, validate_receipts_target, basic_auth, read_headers,
  configure_backend_tls,
}
use bsc_builder_proxyd.Start.Groups.{
  StartedGroup, make_groups, make_group, add_members, mark, times_listed, find_ws_group,
  check_mappings,
}
use bsc_builder_proxyd.Start.Serving.{new_server, resolve_auth, compile_limits}
use bsc_builder_proxyd.Start.Pollers.{
  start_groups, start_group, make_poller, check_fallbacks, share_tracker,
}
use bsc_builder_proxyd.Start.Run.{start, Started, Regroup, connect, lay_out, serve}
use bsc_builder_proxyd.Start.Marks.{listed, make_group-Marked}
use bsc_builder_proxyd.Start.Members.{IsSoundGroup}
use bsc_builder_proxyd.Start.Routable.{Known, Sized, start-IsRoutable}
use bsc_builder_proxyd.Start.Reach.{classify_queue}
use bsc_builder_proxyd.Start.Secrets.{start-Authenticated}
use bsc_builder_proxyd.Start.Watched.{IsWatched, start-IsWatched}
use bsc_builder_proxyd.Start.Domains.{map_ok, with_domains, start_domains}

abbrev pub env : Env
env = record {
  getenv = λ name. if eqb name "SECRET" then "open sesame" else "";
  parse_url = λ url. true;
  parse_cluster_url = λ url. false;
  ping = λ client. true;
  read_file = λ name. none;
  append_certs_from_pem = λ pem. false;
  load_key_pair = λ crt key. false;
  compile = λ s. none;
}

abbrev no_redis : RedisConfig
no_redis = record {
  url = "";
  namespace = "";
  read_url = "";
  fallback_to_memory = false;
  redis_cluster = false;
}

abbrev backend_config : String → BackendConfig
backend_config url = record {
  username = "";
  password = "";
  rpc_url = url;
  ws_url = "";
  max_rps = 0;
  max_ws_conns = 0;
  ca_file = "";
  client_cert_file = "";
  client_key_file = "";
  strip_trailing_xff = false;
  headers = [];
  weight = 0;
  consensus_skip_peer_count_check = false;
  consensus_forced_candidate = false;
  consensus_receipts_target = "";
}

abbrev group_config : BackendGroupConfig
group_config = record {
  backends = "a" ∷ "b" ∷ [];
  weighted_routing = false;
  routing_strategy = "consensus_aware";
  multicall_rpc_error_check = false;
  consensus_aware = false;
  consensus_async_handler = "noop";
  consensus_poller_interval = 0;
  consensus_ban_period = 0;
  consensus_max_update_threshold = 0;
  consensus_max_block_lag = 0;
  consensus_max_block_range = 0;
  consensus_min_peer_count = 0;
  consensus_ha = false;
  consensus_ha_heartbeat_interval = 0;
  consensus_ha_lock_period = 0;
  consensus_ha_redis = no_redis;
  fallbacks = "b" ∷ [];
}

abbrev pub config : Config
config = record {
  ws_backend_group = "sockets";
  server = record {
    rpc_port = 8080;
    ws_port = 8085;
    max_body_size_bytes = pos 0;
    max_concurrent_rpcs = 0;
    max_concurrent_consensus_rpcs = 0;
    timeout_seconds = 0;
    max_upstream_batch_size = pos 0;
    enable_request_log = false;
    max_request_body_log_len = 0;
    enable_served_by_header = false;
    allow_all_origins = false;
  };
  cache = record { enabled = false; ttl = 0 };
  redis = no_redis;
  rate_limit = record {
    use_redis = false;
    base_rate = 0;
    base_interval = 0;
    exempt_origins = [];
    exempt_user_agents = [];
    exempt_base_rate = 0;
    exempt_base_interval = 0;
    exempt_overrides = [];
    error_message = "";
    method_overrides = [];
    ip_header_override = "";
  };
  backend_options = record {
    response_timeout_seconds = 0;
    max_response_size_bytes = 0;
    max_retries = 3;
    out_of_service_seconds = 0;
    max_degraded_latency_threshold = 0;
    max_latency_threshold = 0;
    max_error_rate_threshold = (0, 1);
  };
  backends = ("a", backend_config "http://a") ∷ ("b", backend_config "http://b") ∷ [];
  batch_config = record { max_size = pos 5000; error_message = "" };
  authentication = some (("$SECRET", "alice") ∷ []);
  backend_groups =
      ("main", group_config)
      ∷ (
        "sockets",
        record group_config { routing_strategy = ""; backends = "a" ∷ []; fallbacks = [] },
      )
      ∷ [];
  rpc_method_mappings = ("eth_chainId", "main") ∷ [];
  domain_rpc_method_mappings = ("other", ("eth_chainId", "gone") ∷ []) ∷ [];
  ws_method_whitelist = "eth_call" ∷ [];
  whitelist_error_message = "";
  sender_rate_limit = record { enabled = false; interval = 0; limit = 0; allowed_chain_ids = [] };
  eth_call_override_rules = [];
}

abbrev pub is_ok {ℓ} : {A : Type ℓ} → Start.Outcome A → Bool
is_ok (ok a) = true
is_ok (err e) = false
is_ok (exits c) = false
is_ok panics = false

pub no_truth : false ≡ true → ⊥
no_truth h = cc

abbrev pub result_of {ℓ} :
    {A : Type ℓ} (m : Start.Outcome A) → is_ok m ≡ true → (a : A) × (m ≡ ok a)
result_of (ok a) h = (a, refl)
result_of (err e) h = absurd (no_truth h)
result_of (exits c) h = absurd (no_truth h)
result_of panics h = absurd (no_truth h)

abbrev pub backwards : Regroup
backwards [] = []
backwards (g ∷ []) = g ∷ []
backwards (g ∷ h ∷ gs) = h ∷ g ∷ gs

backwards_perm : (gs : List (String × StartedGroup)) → Permᴰ (backwards gs) gs
backwards_perm [] = Permᴰ.refl []
backwards_perm (g ∷ []) = Permᴰ.refl (g ∷ [])
backwards_perm (g ∷ h ∷ gs) = Permᴰ.swap refl refl

pub start_goes : is_ok (start env backwards config) ≡ true
unfolding start check_config connect connect_redis connect_redis_read check_sender_limit lay_out
    make_backends make_backend from_env read_from_env_or_config basic_auth read_headers
    configure_backend_tls validate_receipts_target make_groups make_group add_members mark
    times_listed find_ws_group check_mappings serve resolve_auth new_server compile_limits
    start_groups start_group validate_routing_strategy known_strategy make_poller check_fallbacks
    share_tracker lookup insert
start_goes = refl

abbrev pub started : Started
started = (result_of (start env backwards config) start_goes).0

pub start_runs : start env backwards config ≡ ok started
start_runs = (result_of (start env backwards config) start_goes).1

start-IsRoutable_example :
    Known started.server.backend_groups started.server.rpc_method_mappings
    × All (λ p. IsSoundGroup p.0 p.1) started.server.backend_groups
    × ((not started.serves_ws || is_some started.server.ws_backend_group) ≡ true)
    × Sized config.server.max_upstream_batch_size started.server.max_upstream_batch_size
    × Sized config.batch_config.max_size started.server.max_batch_size
    × (ltb_ℤ (pos 1000) started.server.max_batch_size ≡ false)
start-IsRoutable_example = start-IsRoutable env backwards config started start_runs

start-IsWatched_example :
    All (IsWatched config.backend_groups started.pollers) started.server.backend_groups
start-IsWatched_example = start-IsWatched env backwards config started backwards_perm start_runs

start_domains_example :
    start env backwards (record config { domain_rpc_method_mappings = [] })
    ≡ map_ok (with_domains []) (start env backwards config)
start_domains_example = start_domains env backwards config []

-- The parts of the server that the next runs look at.
computed :
    (started.server.authenticated_paths ≡ ("open sesame", "alice") ∷ [])
    × (started.server.domain_rpc_method_mappings ≡ config.domain_rpc_method_mappings)
    × (started.server.rpc_method_mappings ≡ config.rpc_method_mappings)
unfolding start check_config connect connect_redis connect_redis_read check_sender_limit lay_out
    make_backends make_backend from_env read_from_env_or_config basic_auth read_headers
    configure_backend_tls validate_receipts_target make_groups make_group add_members mark
    times_listed find_ws_group check_mappings serve resolve_auth new_server compile_limits
    start_groups start_group validate_routing_strategy known_strategy make_poller check_fallbacks
    share_tracker lookup insert
computed = (refl, refl, refl)

started_paths : started.server.authenticated_paths ≡ ("open sesame", "alice") ∷ []
started_paths = computed.0

started_domains : started.server.domain_rpc_method_mappings ≡ config.domain_rpc_method_mappings
started_domains = computed.1

started_mappings : started.server.rpc_method_mappings ≡ config.rpc_method_mappings
started_mappings = computed.2

abbrev pub visitor : HttpRequest
visitor = record {
  header = λ name. "";
  host = "";
  remote_addr = "1.2.3.4:5";
  authorization = "open sesame";
}

abbrev context : RequestContext
context = record {
  x_forwarded_for = "1.2.3.4";
  op_tx_proxy_auth = none;
  auth = some "alice";
  origin = "";
  tx_source = "";
}

context_with :
    (header : String) (paths : List (String × String))
    → paths ≡ ("open sesame", "alice") ∷ []
    → populate_context header paths visitor ≡ some context
unfolding populate_context forwarded_for split first_non_empty lookup
context_with header paths p = rw p refl

gets_context :
    populate_context started.server.limits.rate_limit_header started.server.authenticated_paths
      visitor
    ≡ some context
gets_context = context_with _ _ started_paths

start-Authenticated_example :
    Any
      (λ (p : String × String). (from_env env p.0 ≡ ok "open sesame") × (some "alice" ≡ some p.1))
      (("$SECRET", "alice") ∷ [])
start-Authenticated_example =
    start-Authenticated env backwards config started visitor context start_runs refl gets_context

abbrev chain_id : RpcReq
chain_id = record { jsonrpc = "2.0"; method = "eth_chainId"; params = "[]"; id = "1" }

abbrev service : Service ℕ ℕ ℕ
service = record {
  parse = λ s. some chain_id;
  rpc_method_mappings = ("eth_chainId", "main") ∷ [];
  is_limited = λ l m. (l, false);
  limit_sender = none;
  override_call = λ q. none;
  get_rpc = λ c req. none;
  put_rpc = λ c req r. c;
  forward = λ w group reqs is_batch. none;
  is_expired = λ w. false;
  to_any = λ e. other "failed";
  max_upstream_batch_size = 10;
}

without_domain :
    (ds : List (String × List (String × String))) (ms : List (String × String))
    → ds ≡ config.domain_rpc_method_mappings
    → ms ≡ config.rpc_method_mappings
    → (service.rpc_method_mappings ≡ get_rpc_method_mappings ds ms "here")
      × (lookup "here" ds ≡ none)
unfolding get_rpc_method_mappings lookup
without_domain ds ms h k = (rw (h, k) refl, rw h refl)

own_mappings :
    (service.rpc_method_mappings
      ≡ get_rpc_method_mappings started.server.domain_rpc_method_mappings
          started.server.rpc_method_mappings "here")
    × (lookup "here" started.server.domain_rpc_method_mappings ≡ none)
own_mappings = without_domain _ _ started_domains started_mappings

goes_to_main : (classify service false 0 "text").1 ≡ queue "main" chain_id
unfolding classify classify_req classify_valid classify_routed classify_sender lookup
    validate_rpc_req is_valid_id starts_quoted ends_quoted starts_plain
goes_to_main = refl

classify_queue_example : is_some (lookup "main" started.server.backend_groups) ≡ true
classify_queue_example =
    classify_queue env backwards config started service "here" false 0 "text" "main" chain_id
      start_runs own_mappings.0 own_mappings.1 goes_to_main

abbrev by_name : List (String × Backend)
by_name = ("a", new_backend 0 "a" "" "" []) ∷ ("b", new_backend 1 "b" "" "" []) ∷ []

group_goes : is_ok (make_group by_name "main" group_config) ≡ true
unfolding make_group add_members mark times_listed lookup insert
group_goes = refl

abbrev group : StartedGroup
group = (result_of (make_group by_name "main" group_config) group_goes).0

a_b : ◌≢◌ {A = String} "a" "b"
a_b h = no_truth ((string_eq.beq_iff "a" "b").1 h)

make_group-Marked_example :
    ((j : String)
      → lookup j group.group.fallback_backends
        ≡ (if listed j ("a" ∷ "b" ∷ []) then some (listed j ("b" ∷ [])) else none))
    × All (λ fb. listed fb ("a" ∷ "b" ∷ []) ≡ true) ("b" ∷ [])
make_group-Marked_example =
    make_group-Marked by_name "main" group_config group ((a_b, tt), (tt, tt))
      (result_of (make_group by_name "main" group_config) group_goes).1
