-- ===== src/Server/Handle.antt =====
-- server.go: `HandleRPC` from the request's context to the reply, with `checkEthCallOverride` and the
-- writers of replies. `encoding/json` is a parameter where it decodes; what it writes is the value
-- that it is given.
use bsc_builder_proxyd.Base.{
  ℤ, pos, ltb_ℤ, ℕ, ◌+◌, Bool, true, false, ◌&&◌, List, [], ◌∷◌, String, Option, none, some,
  if◌then◌else◌, leb, ◌==◌, eqb, string_eq, map, length, is_empty,
}
use bsc_builder_proxyd.Json.{
  Json, text, Items, Fields, nil, cons, object, null, boolean, number, array, field_of, as_text,
}
use bsc_builder_proxyd.Rpc.{
  RpcReq, RpcRes, RpcErr, AnyErr, rpc, new_rpc_error_res, codes, is_batch,
  err_request_body_too_large, err_internal, err_parse_err, err_too_many_batch_requests,
  err_gateway_timeout, err_invalid_request,
}
use bsc_builder_proxyd.Routing.{ForwardError}
use bsc_builder_proxyd.Server.{SenderError, get_rpc_method_mappings}
use bsc_builder_proxyd.Server.Access.{
  HttpRequest, RequestContext, populate_context, strip_xff, Limits, Limiter, Client, is_limited,
}
use bsc_builder_proxyd.Server.Batch.{Service, Reply, Batch}
use bsc_builder_proxyd.Server.Minibatches.{
  Handled, replied, timed_out, refused, panicked, handle_batch_rpc,
}

pub record EthCallRule : Type 0 where
  pub address : String
  pub value : String
  pub result : Json

abbrev lower : ℕ → ℕ
lower c = if leb b'A' c && leb c b'Z' then c + 32 else c

abbrev same_codes : List ℕ → List ℕ → Bool
same_codes [] [] = true
same_codes [] (d ∷ ds) = false
same_codes (c ∷ cs) [] = false
same_codes (c ∷ cs) (d ∷ ds) = (c == d) && same_codes cs ds

-- `strings.EqualFold`, for rules in hexadecimal: no letter beyond ASCII folds to a digit of these.
unfoldable pub equal_fold : String → String → Bool
equal_fold s t = same_codes (map lower (codes s)) (map lower (codes t))

unfoldable pub match_rule : String → String → List EthCallRule → Option Json
match_rule to value [] = none
match_rule to value (r ∷ rs) =
    if equal_fold to r.address && equal_fold value r.value
    then some r.result
    else match_rule to value rs

abbrev text_at : String → Fields → Option String
text_at k fs = elim (field_of k fs) [ none ↦ none | some v ↦ as_text v ]

abbrev or_zero : Option String → String
or_zero none = "0x0"
or_zero (some s) = s

abbrev override_fields : List EthCallRule → Fields → Option Json
override_fields rules fs = elim (text_at "to" fs) [
  | none ↦ none
  | some to ↦ match_rule to (or_zero (text_at "value" fs)) rules
]

abbrev override_first : List EthCallRule → Items → Option Json
override_first rules nil = none
override_first rules (cons (object fs) vs) = override_fields rules fs
override_first rules (cons null vs) = none
override_first rules (cons (boolean b) vs) = none
override_first rules (cons (number n) vs) = none
override_first rules (cons (text s) vs) = none
override_first rules (cons (array is) vs) = none

unfoldable pub check_eth_call_override :
    (String → Option Items) → List EthCallRule → RpcReq → Option Json
check_eth_call_override unmarshal_items rules req =
    if is_empty rules
    then none
    else elim (unmarshal_items req.params) [ none ↦ none | some vs ↦ override_first rules vs ]

-- The body, as it is read through the limit on its size.
pub data Body : Type 0 where
  whole : String → Body
  too_large : Body
  broken : Body

-- What `HandleRPC` uses of the server.
pub record Server (L C W : Type 0) : Type 0 where
  pub parse : String → Option RpcReq
  pub parse_batch : String → Option (List String)
  pub unmarshal_items : String → Option Items
  pub take : L → Limiter → String → L × Option Bool
  pub limits : Limits
  pub authenticated_paths : List (String × String)
  pub rpc_method_mappings : List (String × String)
  pub domain_rpc_method_mappings : List (String × List (String × String))
  pub eth_call_override_rules : List EthCallRule
  pub limit_sender : Option (L → RpcReq → L × Option SenderError)
  pub get_rpc : C → RpcReq → Option RpcRes
  pub put_rpc : C → RpcReq → RpcRes → C
  pub forward : RequestContext → W → String → List RpcReq → Bool → Option (Reply W)
  pub is_expired : W → Bool
  pub to_any : ForwardError → AnyErr
  pub message_of : ForwardError → String
  pub max_upstream_batch_size : ℕ
  pub max_batch_size : ℤ
  pub enable_served_by_header : Bool
  pub order : List Batch → List Batch

pub data HttpBody : Type 0 where
  nothing : HttpBody
  one : RpcRes → HttpBody
  many : List (Option RpcRes) → HttpBody

pub record HttpReply : Type 0 where
  pub status : ℕ
  pub body : HttpBody
  pub served_by : Option String
  pub cache_hit : Option Bool

-- The reply and the states that the request leaves, or a panic.
pub data Served (L C W : Type 0) : Type 0 where
  served : L → C → W → HttpReply → Served L C W
  crashed : Served L C W

abbrev code_of : Option RpcErr → ℕ
code_of none = 200
code_of (some e) = if e.http_error_code == 0 then 200 else e.http_error_code

unfoldable pub write_rpc_res : Option String → Option Bool → RpcRes → HttpReply
write_rpc_res served_by cache_hit res = record {
  status = code_of res.error;
  body = one res;
  served_by = served_by;
  cache_hit = cache_hit;
}

unfoldable pub write_rpc_error : RpcErr → HttpReply
write_rpc_error e = write_rpc_res none none (new_rpc_error_res "" (rpc e))

unfoldable pub write_batch_rpc_res : Option String → Option Bool → List (Option RpcRes) → HttpReply
write_batch_rpc_res served_by cache_hit res = record {
  status = 200;
  body = many res;
  served_by = served_by;
  cache_hit = cache_hit;
}

abbrev pub unauthorized : HttpReply
unauthorized = record { status = 401; body = nothing; served_by = none; cache_hit = none }

module _ {L C W : Type 0} (s : Server L C W) where
  abbrev pub client_of : HttpRequest → RequestContext → Client
  client_of r ctx = record {
    xff = strip_xff ctx.x_forwarded_for;
    origin = r.header "X-Forwarded-Host";
    user_agent = r.header "User-Agent";
  }

  -- What `handleBatchRPC` works with for a request of this client.
  unfoldable pub service_for : RequestContext → Client → Service L C W
  service_for ctx client = record {
    parse = s.parse;
    rpc_method_mappings =
        get_rpc_method_mappings s.domain_rpc_method_mappings s.rpc_method_mappings client.origin;
    is_limited = is_limited s.take s.limits client;
    limit_sender = s.limit_sender;
    override_call = check_eth_call_override s.unmarshal_items s.eth_call_override_rules;
    get_rpc = s.get_rpc;
    put_rpc = s.put_rpc;
    forward = s.forward ctx;
    is_expired = s.is_expired;
    to_any = s.to_any;
    max_upstream_batch_size = s.max_upstream_batch_size;
  }

  abbrev served_header : String → Option String
  served_header served_by = if s.enable_served_by_header then some served_by else none

  -- `writeRPCRes` of `backendRes[0]`, which panics on a response that is not there.
  abbrev write_first : L → C → W → List (Option RpcRes) → Bool → String → Served L C W
  write_first l c w [] hit by = crashed
  write_first l c w (none ∷ rs) hit by = crashed
  write_first l c w (some r ∷ rs) hit by =
      served l c w (write_rpc_res (served_header by) (some hit) r)

  unfoldable pub reply_batch : Handled L C W → Served L C W
  reply_batch (replied l c w res hit by) =
      served l c w (write_batch_rpc_res (served_header by) (some hit) res)
  reply_batch (timed_out l c w) = served l c w (write_rpc_error err_gateway_timeout)
  reply_batch (refused l c w e) =
      served l c w (write_rpc_error (err_invalid_request (s.message_of e)))
  reply_batch panicked = crashed

  unfoldable pub reply_single : Handled L C W → Served L C W
  reply_single (replied l c w res hit by) = write_first l c w res hit by
  reply_single (timed_out l c w) = served l c w (write_rpc_error err_internal)
  reply_single (refused l c w e) =
      served l c w (write_rpc_error (err_invalid_request (s.message_of e)))
  reply_single panicked = crashed

  unfoldable pub handle_batch : Service L C W → L → C → W → List String → Served L C W
  handle_batch service l c w reqs =
      if ltb_ℤ s.max_batch_size (pos (length reqs))
      then served l c w (write_rpc_error err_too_many_batch_requests)
      else if is_empty reqs
      then served l c w
          (write_rpc_error (err_invalid_request "must specify at least one batch call"))
      else reply_batch (handle_batch_rpc service s.order true l c w reqs)

  unfoldable pub handle_whole : Service L C W → L → C → W → String → Served L C W
  handle_whole service l c w body =
      if is_batch (codes body)
      then elim (s.parse_batch body) [
        | none ↦ served l c w (write_rpc_error err_parse_err)
        | some reqs ↦ handle_batch service l c w reqs
      ]
      else reply_single (handle_batch_rpc service s.order false l c w (body ∷ []))

  unfoldable pub handle_body : Service L C W → L → C → W → Body → Served L C W
  handle_body service l c w too_large = served l c w (write_rpc_error err_request_body_too_large)
  handle_body service l c w broken = served l c w (write_rpc_error err_internal)
  handle_body service l c w (whole body) = handle_whole service l c w body

  unfoldable pub handle_rpc : L → C → W → HttpRequest → Body → Served L C W
  handle_rpc l c w r body =
      elim (populate_context s.limits.rate_limit_header s.authenticated_paths r) [
        | none ↦ served l c w unauthorized
        | some ctx ↦
            let client = client_of r ctx in
            if eqb client.xff ""
            then served l c w
                (write_rpc_error (err_invalid_request "request does not include a remote IP"))
            else handle_body (service_for ctx client) l c w body
      ]
