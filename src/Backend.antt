-- ===== src/Backend.antt =====
-- backend.go, the `Backend`: its configuration, its three sliding windows and its health.
use bsc_builder_proxyd.Base.{
  ℕ, ◌*◌, Bool, true, false, List, [], ◌∷◌, String, ℤ, pos, pos_part, neg_part, sub_ℕ, leb_ℤ,
  if◌then◌else◌,
}
use bsc_builder_proxyd.Window.{AvgSlidingWindow, new_sliding_window, second, sum_of, avg, clear}

-- A backend is a pointer in the source: `id` is its identity. An error rate is a fraction.
pub record Backend : Type 0 where
  pub id : ℕ
  pub name : String
  pub rpc_url : String
  pub ws_url : String
  pub receipts_target : String
  pub auth_username : String
  pub auth_password : String
  pub headers : List (String × String)
  pub timeout : ℕ
  pub max_retries : ℕ
  pub max_response_size : ℕ
  pub max_rps : ℕ
  pub max_ws_conns : ℕ
  pub out_of_service_interval : ℕ
  pub strip_trailing_xff : Bool
  pub proxyd_ip : String
  pub skip_peer_count_check : Bool
  pub forced_candidate : Bool
  pub max_degraded_latency_threshold : ℕ
  pub max_latency_threshold : ℕ
  pub max_error_rate_threshold : ℕ × ℕ
  pub latency_sliding_window : AvgSlidingWindow
  pub network_requests_sliding_window : AvgSlidingWindow
  pub intermittent_errors_sliding_window : AvgSlidingWindow
  pub weight : ℕ

pub data BackendOpt : Type 0 where
  with_basic_auth : String → String → BackendOpt
  with_headers : List (String × String) → BackendOpt
  with_timeout : ℕ → BackendOpt
  with_max_retries : ℕ → BackendOpt
  with_max_response_size : ℕ → BackendOpt
  with_out_of_service_duration : ℕ → BackendOpt
  with_max_rps : ℕ → BackendOpt
  with_max_ws_conns : ℕ → BackendOpt
  with_stripped_trailing_xff : BackendOpt
  with_proxyd_ip : String → BackendOpt
  with_consensus_skip_peer_count_check : Bool → BackendOpt
  with_consensus_forced_candidate : Bool → BackendOpt
  with_weight : ℕ → BackendOpt
  with_max_degraded_latency_threshold : ℕ → BackendOpt
  with_max_latency_threshold : ℕ → BackendOpt
  with_max_error_rate_threshold : ℕ × ℕ → BackendOpt
  with_consensus_receipt_target : String → BackendOpt
  with_intermittent_network_error_sliding_window : AvgSlidingWindow → BackendOpt

unfoldable pub apply_opt : BackendOpt → Backend → Backend
apply_opt (with_basic_auth user password) b = record b {
  auth_username = user;
  auth_password = password;
}
apply_opt (with_headers hs) b = record b { headers = hs }
apply_opt (with_timeout t) b = record b { timeout = t }
apply_opt (with_max_retries n) b = record b { max_retries = n }
apply_opt (with_max_response_size n) b = record b { max_response_size = n }
apply_opt (with_out_of_service_duration t) b = record b { out_of_service_interval = t }
apply_opt (with_max_rps n) b = record b { max_rps = n }
apply_opt (with_max_ws_conns n) b = record b { max_ws_conns = n }
apply_opt with_stripped_trailing_xff b = record b { strip_trailing_xff = true }
apply_opt (with_proxyd_ip ip) b = record b { proxyd_ip = ip }
apply_opt (with_consensus_skip_peer_count_check skip) b = record b { skip_peer_count_check = skip }
apply_opt (with_consensus_forced_candidate forced) b = record b { forced_candidate = forced }
apply_opt (with_weight n) b = record b { weight = n }
apply_opt (with_max_degraded_latency_threshold t) b = record b {
  max_degraded_latency_threshold = t;
}
apply_opt (with_max_latency_threshold t) b = record b { max_latency_threshold = t }
apply_opt (with_max_error_rate_threshold r) b = record b { max_error_rate_threshold = r }
apply_opt (with_consensus_receipt_target s) b = record b { receipts_target = s }
apply_opt (with_intermittent_network_error_sliding_window w) b = record b {
  intermittent_errors_sliding_window = w;
}

unfoldable pub override : List BackendOpt → Backend → Backend
override [] b = b
override (o ∷ os) b = override os (apply_opt o b)

unfoldable pub new_backend : ℕ → String → String → String → List BackendOpt → Backend
new_backend id name rpc_url ws_url opts = override opts (record {
  id = id;
  name = name;
  rpc_url = rpc_url;
  ws_url = ws_url;
  receipts_target = "";
  auth_username = "";
  auth_password = "";
  headers = [];
  timeout = 5 * second;
  max_retries = 0;
  max_response_size = 9223372036854775807;
  max_rps = 0;
  max_ws_conns = 0;
  out_of_service_interval = 0;
  strip_trailing_xff = false;
  proxyd_ip = "";
  skip_peer_count_check = false;
  forced_candidate = false;
  max_degraded_latency_threshold = 5 * second;
  max_latency_threshold = 10 * second;
  max_error_rate_threshold = (1, 2);
  latency_sliding_window = new_sliding_window 0 0;
  network_requests_sliding_window = new_sliding_window 0 0;
  intermittent_errors_sliding_window = new_sliding_window 0 0;
  weight = 0;
})

-- An integer times a number.
abbrev pub scale : ℤ → ℕ → ℤ
scale z k = sub_ℕ (pos_part z * k) (neg_part z * k)

-- `ErrorRate` as a fraction: 0 over 1 until the window holds 10 requests. The windows are read at
-- `now`; that a reading evicts is not seen by a later one.
unfoldable pub error_rate : Backend → ℕ → ℤ × ℤ
error_rate b now =
    let requests = (sum_of b.network_requests_sliding_window now).1 in
    if leb_ℤ (pos 10) requests
    then ((sum_of b.intermittent_errors_sliding_window now).1, requests)
    else (pos 0, pos 1)

-- `avgLatency >= t`, for the average as a fraction.
unfoldable pub latency_reaches : Backend → ℕ → ℕ → Bool
latency_reaches b now t =
    let (total, points) = (avg b.latency_sliding_window now).1 in leb_ℤ (pos (t * points)) total

unfoldable pub is_healthy : Backend → ℕ → Bool
is_healthy b now =
    let (errors, requests) = error_rate b now in
    let (num, den) = b.max_error_rate_threshold in
    if leb_ℤ (scale requests num) (scale errors den)
    then false
    else if latency_reaches b now b.max_latency_threshold
    then false
    else true

unfoldable pub is_degraded : Backend → ℕ → Bool
is_degraded b now = latency_reaches b now b.max_degraded_latency_threshold

unfoldable pub clear_sliding_windows : Backend → Backend
clear_sliding_windows b = record b {
  intermittent_errors_sliding_window = clear b.intermittent_errors_sliding_window;
  network_requests_sliding_window = clear b.network_requests_sliding_window;
}
