-- ===== src/Rpc.antt =====
-- rpc.go: requests, responses, their errors and their validation; backend.go, the errors. Raw JSON
-- is a `String`; its decoding and encoding by `encoding/json` are parameters where they are used.
pub mod Shape
use Prim.Native.Char.{code}
use bsc_builder_proxyd.Base.{
  ℕ, ◌+◌, Bool, true, false, ◌&&◌, ◌||◌, not, Option, none, some, String, ℤ, pos, negsuc, eqb,
  string_eq, if◌then◌else◌, ltb, List, [], ◌∷◌, ◌==◌, length, is_some,
}
use bsc_builder_proxyd.Json.{Json}

pub record RpcReq : Type 0 where
  pub jsonrpc : String
  pub method : String
  pub params : String
  pub id : String

pub record RpcErr : Type 0 where
  pub code : ℤ
  pub message : String
  pub data_text : String
  pub http_error_code : ℕ

-- `Result` is `nil` where it is `none`.
pub record RpcRes : Type 0 where
  pub jsonrpc : String
  pub result : Option Json
  pub error : Option RpcErr
  pub id : String

abbrev pub jsonrpc_version : String
jsonrpc_version = "2.0"

-- `-n`.
abbrev pub minus : ℕ → ℤ
minus n = elim n [ ℕ.zero ↦ pos 0 | ℕ.suc m ↦ negsuc m ]

abbrev rpc_err : ℕ → String → ℕ → RpcErr
rpc_err n message http = record {
  code = minus n;
  message = message;
  data_text = "";
  http_error_code = http;
}

abbrev pub err_parse_err : RpcErr
err_parse_err = rpc_err 32700 "parse error" 400

abbrev pub err_internal : RpcErr
err_internal = rpc_err 32000 "internal error" 500

abbrev pub err_method_not_whitelisted : RpcErr
err_method_not_whitelisted = rpc_err 32601 "rpc method is not whitelisted" 403

abbrev pub err_backend_offline : RpcErr
err_backend_offline = rpc_err 32010 "backend offline" 503

abbrev pub err_no_backends : RpcErr
err_no_backends = rpc_err 32011 "no backend is currently healthy to serve traffic" 503

abbrev pub err_backend_over_capacity : RpcErr
err_backend_over_capacity = rpc_err 32012 "backend is over capacity" 429

abbrev pub err_backend_bad_response : RpcErr
err_backend_bad_response = rpc_err 32013 "backend returned an invalid response" 500

abbrev pub err_too_many_batch_requests : RpcErr
err_too_many_batch_requests = rpc_err 32014 "too many RPC calls in batch request" 0

abbrev pub err_gateway_timeout : RpcErr
err_gateway_timeout = rpc_err 32015 "gateway timeout" 504

abbrev pub err_over_rate_limit : RpcErr
err_over_rate_limit = rpc_err 32016 "over rate limit" 429

abbrev pub err_over_sender_rate_limit : RpcErr
err_over_sender_rate_limit = rpc_err 32017 "sender is over rate limit" 429

abbrev pub err_block_out_of_range : RpcErr
err_block_out_of_range = rpc_err 32019 "block is out of range" 400

abbrev pub err_backend_response_too_large : RpcErr
err_backend_response_too_large = rpc_err 32020 "backend response too large" 500

abbrev pub err_request_body_too_large : RpcErr
err_request_body_too_large = rpc_err 32021 "request body too large" 413

abbrev pub err_invalid_request : String → RpcErr
err_invalid_request message = rpc_err 32600 message 400

abbrev pub err_invalid_params : String → RpcErr
err_invalid_params message = rpc_err 32602 message 400

unfoldable pub is_error : RpcRes → Bool
is_error r = is_some r.error

-- An error that is no `RPCErr` is its message.
pub data AnyErr : Type 0 where
  rpc : RpcErr → AnyErr
  other : String → AnyErr

unfoldable pub new_rpc_error_res : String → AnyErr → RpcRes
new_rpc_error_res id (rpc e) = record {
  jsonrpc = jsonrpc_version;
  result = none;
  error = some e;
  id = id;
}
new_rpc_error_res id (other message) = record {
  jsonrpc = jsonrpc_version;
  result = none;
  error = some (rpc_err 32000 message 0);
  id = id;
}

unfoldable pub new_rpc_res : String → Json → RpcRes
new_rpc_res id result = record {
  jsonrpc = jsonrpc_version;
  result = some result;
  error = none;
  id = id;
}

-- The characters of a text. JSON's own are ASCII, so counting characters or bytes decides alike.
abbrev pub codes : String → List ℕ
codes String.[] = []
codes (String.◌∷◌ c s) = code c ∷ codes s

unfoldable pub starts_quoted : List ℕ → Bool
starts_quoted [] = false
starts_quoted (c ∷ cs) = c == 0x22

unfoldable pub ends_quoted : List ℕ → Bool
ends_quoted [] = false
ends_quoted (c ∷ []) = c == 0x22
ends_quoted (c ∷ d ∷ cs) = ends_quoted (d ∷ cs)

-- `id[0] != '{' && id[0] != '['`, on a text that is not empty.
unfoldable pub starts_plain : List ℕ → Bool
starts_plain [] = false
starts_plain (c ∷ cs) = not (c == b'{') && not (c == b'[')

unfoldable pub is_valid_id : List ℕ → Bool
is_valid_id id = if starts_quoted id && ends_quoted id then ltb 2 (length id) else starts_plain id

-- `none` is a valid request.
unfoldable pub validate_rpc_req : RpcReq → Option RpcErr
validate_rpc_req req =
    if not (eqb req.jsonrpc jsonrpc_version)
    then some (err_invalid_request "invalid JSON-RPC version")
    else if eqb req.method ""
    then some (err_invalid_request "no method specified")
    else if not (is_valid_id (codes req.id))
    then some (err_invalid_request "invalid ID")
    else none

-- Space, tab, line feed and carriage return.
unfoldable pub is_space : ℕ → Bool
is_space c = c == 0x20 || (c == 0x09 || (c == 0x0a || c == 0x0d))

unfoldable pub is_batch : List ℕ → Bool
is_batch [] = false
is_batch (c ∷ cs) = if is_space c then is_batch cs else c == b'['
