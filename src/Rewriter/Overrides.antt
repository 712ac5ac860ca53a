-- ===== src/Rewriter/Overrides.antt =====
-- rewriter.go, the dispatch on the method; backend.go, `OverwriteConsensusResponses` and
-- `OverrideResponses`. `none` is a panic.
use bsc_builder_proxyd.Base.{
  ℕ, suc, Bool, true, false, ◌||◌, Option, none, some, String, if◌then◌else◌, eqb, string_eq, List,
  [], ◌∷◌, ◌++◌, take, drop, is_empty,
}
use bsc_builder_proxyd.Json.{text}
use bsc_builder_proxyd.Rpc.{
  RpcReq, RpcRes, RpcErr, jsonrpc_version, err_block_out_of_range, err_invalid_params,
  err_parse_err,
}
use bsc_builder_proxyd.Rewriter.{
  Codec, RewriteContext, rewrite_none, rewrite_override_error, rewrite_override_request,
  rewrite_override_response, RewriteError, block_out_of_range, range_too_large, malformed,
  Rewritten, unchanged,
}
use bsc_builder_proxyd.Rewriter.Params.{rewrite_param}
use bsc_builder_proxyd.Rewriter.Ranges.{rewrite_range}

abbrev pub one_of : String → List String → Bool
one_of s [] = false
one_of s (t ∷ ts) = eqb s t || one_of s ts

-- How a method's parameters are rewritten.
pub data Rule : Type 0 where
  range_rule : Rule
  param_rule : ℕ → Bool → Bool → Rule
  no_rule : Rule

unfoldable pub rule_of : String → Rule
rule_of method =
    if one_of method ("eth_getLogs" ∷ "eth_newFilter" ∷ [])
    then range_rule
    else if one_of method ("debug_getRawReceipts" ∷ "consensus_getReceipts" ∷ [])
    then param_rule 0 true false
    else if one_of method
        ("eth_getBalance" ∷ "eth_getCode" ∷ "eth_getTransactionCount" ∷ "eth_call" ∷ [])
    then param_rule 1 false true
    else if one_of method ("eth_getStorageAt" ∷ "eth_getProof" ∷ [])
    then param_rule 2 false true
    else if one_of method (
        "eth_getBlockTransactionCountByNumber" ∷ "eth_getUncleCountByBlockNumber"
        ∷ "eth_getBlockByNumber" ∷ "eth_getTransactionByBlockNumberAndIndex"
        ∷ "eth_getUncleByBlockNumberAndIndex" ∷ [])
    then param_rule 0 false false
    else no_rule

abbrev pub apply_rule : Codec → RewriteContext → RpcReq → Rule → Option Rewritten
apply_rule codec rctx req range_rule = rewrite_range codec rctx req
apply_rule codec rctx req (param_rule position required block_nr_or_hash) =
    some (rewrite_param codec rctx req position required block_nr_or_hash)
apply_rule codec rctx req no_rule = some (unchanged req)

unfoldable pub rewrite_request : Codec → RewriteContext → RpcReq → Option Rewritten
rewrite_request codec rctx req = apply_rule codec rctx req (rule_of req.method)

-- The response with the latest block, if the method asks for it.
unfoldable pub rewrite_response : Codec → RewriteContext → RpcReq → RpcRes → Option RpcRes
rewrite_response codec rctx req res =
    if eqb req.method "eth_blockNumber"
    then some (record res { result = some (text (codec.encode_uint64 rctx.latest)) })
    else none

unfoldable pub rewrite_error : Codec → RewriteContext → Option RewriteError → RpcErr
rewrite_error codec rctx (some block_out_of_range) = err_block_out_of_range
rewrite_error codec rctx (some range_too_large) =
    err_invalid_params (codec.range_message rctx.max_block_range)
rewrite_error codec rctx (some malformed) = err_parse_err
rewrite_error codec rctx none = err_parse_err

-- What becomes of one request: it is forwarded, or answered here.
pub data Fate : Type 0 where
  forward : RpcReq → Fate
  answer : RpcRes → Fate

abbrev pub fate_of : Codec → RewriteContext → RpcRes → Rewritten → Fate
fate_of codec rctx res w = elim w.result [
  | rewrite_none ↦ forward w.request
  | rewrite_override_request ↦ forward w.request
  | rewrite_override_error ↦ answer (record res { error = some (rewrite_error codec rctx w.error) })
  | rewrite_override_response ↦ answer res
]

abbrev or_fate : Option RpcRes → Option Fate → Option Fate
or_fate (some res) f = some (answer res)
or_fate none f = f

abbrev map_fate : Codec → RewriteContext → RpcRes → Option Rewritten → Option Fate
map_fate codec rctx res none = none
map_fate codec rctx res (some w) = some (fate_of codec rctx res w)

-- `RewriteTags` and the `switch` on its result, for one request.
unfoldable pub rewrite_tags : Codec → RewriteContext → RpcReq → Option Fate
rewrite_tags codec rctx req =
    let res : RpcRes = record {
      jsonrpc = jsonrpc_version;
      result = none;
      error = none;
      id = req.id;
    } in
    or_fate (rewrite_response codec rctx req res)
      (map_fate codec rctx res (rewrite_request codec rctx req))

pub record IndexedReqRes : Type 0 where
  pub index : ℕ
  pub req : RpcReq
  pub res : RpcRes

-- The requests to forward and the responses made here, in order.
pub record Overwritten : Type 0 where
  pub requests : List RpcReq
  pub overridden : List IndexedReqRes

abbrev add_fate : ℕ → RpcReq → Fate → Overwritten → Overwritten
add_fate i req (forward r) o = record o { requests = o.requests ++ r ∷ [] }
add_fate i req (answer res) o = record o {
  overridden = o.overridden ++ record { index = i; req = req; res = res } ∷ [];
}

-- The loop, from index `i` on.
unfoldable pub overwrite_from :
    Codec → RewriteContext → ℕ → List RpcReq → Overwritten → Option Overwritten
overwrite_from codec rctx i [] o = some o
overwrite_from codec rctx i (req ∷ reqs) o = elim (rewrite_tags codec rctx req) [
  | none ↦ none
  | some f ↦ overwrite_from codec rctx (suc i) reqs (add_fate i req f o)
]

unfoldable pub overwrite_consensus_responses :
    Codec → RewriteContext → List RpcReq → Option Overwritten
overwrite_consensus_responses codec rctx reqs =
    overwrite_from codec rctx 0 reqs (record { requests = []; overridden = [] })

-- Insert at the index, or append where there is nothing yet.
unfoldable pub override_one : List RpcRes → IndexedReqRes → List RpcRes
override_one res ov =
    if is_empty res then ov.res ∷ [] else take ov.index res ++ (ov.res ∷ drop ov.index res)

unfoldable pub override_responses : List RpcRes → List IndexedReqRes → List RpcRes
override_responses res [] = res
override_responses res (ov ∷ ovs) = override_responses (override_one res ov) ovs
