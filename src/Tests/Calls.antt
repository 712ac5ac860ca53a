-- ===== src/Tests/Calls.antt =====
-- A call of four requests, two of them with one id, against a group that answers everything.
use bsc_builder_proxyd.Base.{
  pos, inr, ℕ, ◌≡◌, refl, ap, true, false, List, [], ◌∷◌, String, Option, none, some, if◌then◌else◌,
  eqb, string_eq, arith, lookup, insert,
}
use bsc_builder_proxyd.Json.{text, nil}
use bsc_builder_proxyd.Rpc.{
  RpcReq, RpcRes, other, validate_rpc_req, is_valid_id, starts_quoted, ends_quoted, starts_plain,
}
use bsc_builder_proxyd.Server.Batch.{
  Service, Reply, collect_from, classify, classify_req, classify_valid, classify_routed,
  classify_sender, enqueue, answer_here, add_elem, create_batch_request, add_name,
}
use bsc_builder_proxyd.Server.Minibatches.{
  handle_batch_rpc, replied, no_responses, run_batches, run_batch, forward_minibatches,
  forward_minibatch, handle_reply, store, put_cache, refresh, lookup_elems, num_batches, join_names,
}
use bsc_builder_proxyd.Server.Distinct.{IsExact, res_ids, req_ids}
use bsc_builder_proxyd.Server.Access.{HttpRequest, RequestContext, noop}
use bsc_builder_proxyd.Server.Handle.{Server}

abbrev pub all_ok : List RpcReq → List RpcRes
all_ok [] = []
all_ok (q ∷ qs) =
    record { jsonrpc = "2.0"; result = some (text "ok"); error = none; id = q.id } ∷ all_ok qs

all_ok-ids : (qs : List RpcReq) → res_ids (all_ok qs) ≡ req_ids qs
all_ok-ids [] = refl
all_ok-ids (q ∷ qs) = ap (◌∷◌ q.id) (all_ok-ids qs)

-- The text of a request is its id; the empty one cannot be parsed.
abbrev pub parse_id : String → Option RpcReq
parse_id s =
    if eqb s ""
    then none
    else some (record { jsonrpc = "2.0"; method = "m"; params = "[]"; id = s })

abbrev pub reply_all : ℕ → List RpcReq → Reply ℕ
reply_all w reqs = record {
  world = w;
  requests = reqs;
  res = all_ok reqs;
  served_by = "g/b";
  error = none;
}

abbrev pub server : Server ℕ ℕ ℕ
server = record {
  parse = parse_id;
  parse_batch = λ s. some ("1" ∷ "2" ∷ "1" ∷ "" ∷ []);
  unmarshal_items = λ s. some nil;
  take = λ l lim key. (l, some true);
  limits = record {
    main_lim = noop;
    lim_exempt_origins = [];
    lim_exempt_user_agents = [];
    exempt_lims = [];
    override_lims = [];
    globally_limited_methods = [];
    rate_limit_header = "X-Forwarded-For";
  };
  authenticated_paths = [];
  rpc_method_mappings = ("m", "g") ∷ [];
  domain_rpc_method_mappings = [];
  eth_call_override_rules = [];
  limit_sender = none;
  get_rpc = λ c req. none;
  put_rpc = λ c req r. c;
  forward = λ ctx w group reqs is_batch. some (reply_all w reqs);
  is_expired = λ w. false;
  to_any = λ e. other "failed";
  message_of = λ e. "failed";
  max_upstream_batch_size = 2;
  max_batch_size = pos 10;
  enable_served_by_header = true;
  order = λ bs. bs;
}

abbrev context : RequestContext
context = record {
  x_forwarded_for = "1.2.3.4";
  op_tx_proxy_auth = none;
  auth = none;
  origin = "";
  tx_source = "";
}

abbrev service : Service ℕ ℕ ℕ
service = record {
  parse = parse_id;
  rpc_method_mappings = ("m", "g") ∷ [];
  is_limited = λ l m. (l, false);
  limit_sender = none;
  override_call = λ q. none;
  get_rpc = λ c req. none;
  put_rpc = λ c req r. c;
  forward = λ w group reqs is_batch. some (reply_all w reqs);
  is_expired = λ w. false;
  to_any = λ e. other "failed";
  max_upstream_batch_size = 2;
}

service-IsExact : IsExact service
service-IsExact = record {
  some_batch = omega arith;
  forward_own = λ w group reqs b some_reqs few distinct.
      inr (reply_all w reqs, refl, refl, λ e. all_ok-ids reqs);
  cache_own = λ c req r h. absurd (cc);
}

abbrev ok_for : String → Option RpcRes
ok_for id = some (record { jsonrpc = "2.0"; result = some (text "ok"); error = none; id = id })

-- The second request with the id 1 goes in a batch of its own.
two_with_one_id :
    handle_batch_rpc service (λ bs. bs) true 0 0 0 ("1" ∷ "2" ∷ "1" ∷ [])
    ≡ replied 0 0 0 (ok_for "1" ∷ ok_for "2" ∷ ok_for "1" ∷ []) false "g/b"
unfolding handle_batch_rpc collect_from classify classify_req classify_valid classify_routed
    classify_sender enqueue answer_here add_elem create_batch_request add_name no_responses
    run_batches run_batch forward_minibatches forward_minibatch handle_reply store put_cache refresh
    lookup_elems num_batches join_names lookup insert validate_rpc_req is_valid_id starts_quoted
    ends_quoted starts_plain
two_with_one_id = refl

abbrev pub post : HttpRequest
post = record {
  header = λ name. if eqb name "X-Forwarded-For" then "1.2.3.4" else "";
  host = "proxy";
  remote_addr = "1.2.3.4:80";
  authorization = "";
}
