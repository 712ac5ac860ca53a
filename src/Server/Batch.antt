-- ===== src/Server/Batch.antt =====
-- server.go, `handleBatchRPC`: a call's requests are answered here or collected into batches, and the
-- batches are looked up in the cache and forwarded in minibatches. The limiters' state is an `L`, the
-- cache's a `C` and the backends' a `W`.
use bsc_builder_proxyd.Base.{
  ℕ, suc, ◌+◌, Bool, true, false, ◌&&◌, List, [], ◌∷◌, ◌++◌, String, Option, none, some,
  if◌then◌else◌, ◌==◌, eqb, string_eq, lookup, insert, set,
}
use bsc_builder_proxyd.Json.{Json, text, array, nil}
use bsc_builder_proxyd.Rpc.{
  RpcReq, RpcRes, RpcErr, AnyErr, rpc, other, new_rpc_error_res, new_rpc_res, validate_rpc_req,
  err_parse_err, err_method_not_whitelisted, err_over_rate_limit,
}
use bsc_builder_proxyd.Routing.{
  ForwardError, ErrorKind, receipts_cant_be_batched, receipts_invalid_target,
}
use bsc_builder_proxyd.Server.{SenderError, rpc_error, invalid_sender}

-- What a backend group returns. The requests are pointers: they come back as it left them.
pub record Reply (W : Type 0) : Type 0 where
  pub world : W
  pub requests : List RpcReq
  pub res : List RpcRes
  pub served_by : String
  pub error : Option ForwardError

-- The parts of the server that a call uses. `forward` is `BackendGroup.Forward`, with `none` for a
-- panic; `to_any` is what `NewRPCErrorRes` sees of an error; `parse` is `json.Unmarshal`.
pub record Service (L C W : Type 0) : Type 0 where
  pub parse : String → Option RpcReq
  pub rpc_method_mappings : List (String × String)
  pub is_limited : L → String → L × Bool
  pub limit_sender : Option (L → RpcReq → L × Option SenderError)
  pub override_call : RpcReq → Option Json
  pub get_rpc : C → RpcReq → Option RpcRes
  pub put_rpc : C → RpcReq → RpcRes → C
  pub forward : W → String → List RpcReq → Bool → Option (Reply W)
  pub is_expired : W → Bool
  pub to_any : ForwardError → AnyErr
  pub max_upstream_batch_size : ℕ

-- What becomes of one request: a response made here, the answer to the health check, or a place in
-- a batch for a backend group.
pub data Outcome : Type 0 where
  respond : RpcRes → Outcome
  healthy : RpcRes → Outcome
  queue : String → RpcReq → Outcome

abbrev pub refuse : String → RpcErr → Outcome
refuse id e = respond (new_rpc_error_res id (rpc e))

abbrev pub any_of : SenderError → AnyErr
any_of (rpc_error e) = rpc e
any_of invalid_sender = other "invalid sender"

abbrev pub group_of : Option String → String
group_of none = ""
group_of (some g) = g

abbrev pub sender_outcome : String → RpcReq → Option SenderError → Outcome
sender_outcome group req none = queue group req
sender_outcome group req (some e) = respond (new_rpc_error_res req.id (any_of e))

module _ {L C W : Type 0} (s : Service L C W) where
  unfoldable pub classify_sender : L → String → RpcReq → L × Outcome
  classify_sender l group req =
      if eqb req.method "eth_sendRawTransaction"
      then elim s.limit_sender [
        | none ↦ (l, queue group req)
        | some f ↦ let (l', e) = f l req in (l', sender_outcome group req e)
      ]
      else (l, queue group req)

  unfoldable pub classify_routed : L → RpcReq → L × Outcome
  classify_routed l req =
      let group = group_of (lookup req.method s.rpc_method_mappings) in
      if eqb group ""
      then (l, refuse req.id err_method_not_whitelisted)
      else let (l', limited) = s.is_limited l req.method in
        if limited then (l', refuse req.id err_over_rate_limit) else classify_sender l' group req

  unfoldable pub classify_valid : L → RpcReq → L × Outcome
  classify_valid l req =
      if eqb req.method "eth_accounts"
      then (l, respond (new_rpc_res req.id (array nil)))
      else if eqb req.method "eth_call"
      then elim (s.override_call req) [
        | some result ↦ (l, respond (new_rpc_res req.id result))
        | none ↦ classify_routed l req
      ]
      else classify_routed l req

  unfoldable pub classify_req : Bool → L → RpcReq → L × Outcome
  classify_req single l req =
      if single && eqb req.method "proxyd_healthz"
      then (l, healthy (new_rpc_res req.id (text "OK")))
      else elim (validate_rpc_req req) [ some e ↦ (l, refuse "" e) | none ↦ classify_valid l req ]

  unfoldable pub classify : Bool → L → String → L × Outcome
  classify single l raw = elim (s.parse raw) [
    | none ↦ (l, refuse "" err_parse_err)
    | some req ↦ classify_req single l req
  ]

pub record BatchElem : Type 0 where
  pub req : RpcReq
  pub index : ℕ

-- `batchGroup` with its elements.
pub record Batch : Type 0 where
  pub group_id : ℕ
  pub backend_group : String
  pub elems : List BatchElem

-- `batches[batchGroup] = append(...)`.
unfoldable pub add_elem : ℕ → String → BatchElem → List Batch → List Batch
add_elem id group e [] = record { group_id = id; backend_group = group; elems = e ∷ [] } ∷ []
add_elem id group e (b ∷ bs) =
    if b.group_id == id && eqb b.backend_group group
    then (record b { elems = b.elems ++ e ∷ [] }) ∷ bs
    else b ∷ add_elem id group e bs

-- The local variables of the first loop. A response that is not set yet is `none`.
pub record Collected (L : Type 0) : Type 0 where
  pub limits : L
  pub responses : List (Option RpcRes)
  pub batches : List Batch
  pub ids : List (String × ℕ)

pub data Collecting (L : Type 0) : Type 0 where
  collected : Collected L → Collecting L
  health_reply : L → RpcRes → Collecting L

abbrev pub count_of : Option ℕ → ℕ
count_of none = 0
count_of (some n) = n

module _ {L : Type 0} where
  -- `ids[id]++`, and the request goes into the batch of that number.
  unfoldable pub enqueue : ℕ → String → RpcReq → Collected L → Collected L
  enqueue i group req k =
      let n = count_of (lookup req.id k.ids) + 1 in
      record k {
        ids = insert req.id n k.ids;
        batches = add_elem n group (record { req = req; index = i }) k.batches;
      }

  unfoldable pub answer_here : ℕ → RpcRes → Collected L → Collected L
  answer_here i res k = record k { responses = set k.responses i (some res) }

module _ {L C W : Type 0} (s : Service L C W) where
  -- The first loop, from index `i` on.
  unfoldable pub collect_from : Bool → ℕ → List String → Collected L → Collecting L
  collect_from single i [] k = collected k
  collect_from single i (raw ∷ raws) k =
      let (l, outcome) = classify s single k.limits raw in
      let k' : Collected L = record k { limits = l } in
      elim outcome [
        | respond res ↦ collect_from single (suc i) raws (answer_here i res k')
        | healthy res ↦ health_reply l res
        | queue group req ↦ collect_from single (suc i) raws (enqueue i group req k')
      ]

-- The local variables of the second loop.
pub record Progress (C W : Type 0) : Type 0 where
  pub cache : C
  pub world : W
  pub slots : List (Option RpcRes)
  pub cached : Bool
  pub served_by : List String

-- How the loop ends: it goes on, or the call ends without responses.
pub data Ending (C W : Type 0) : Type 0 where
  go_on : Progress C W → Ending C W
  expired : Progress C W → Ending C W
  receipts_error : Progress C W → ForwardError → Ending C W
  crashed : Ending C W

infixl 5 ◌>>=◌
abbrev pub ◌>>=◌ : {C W : Type 0} → Ending C W → (Progress C W → Ending C W) → Ending C W
go_on p >>= f = f p
expired p >>= f = expired p
receipts_error p e >>= f = receipts_error p e
crashed >>= f = crashed

-- `servedBy[sb] = true`; the names come in the order of their first use.
unfoldable pub add_name : String → List String → List String
add_name sb [] = sb ∷ []
add_name sb (x ∷ xs) = if eqb x sb then x ∷ xs else x ∷ add_name sb xs

-- `createBatchRequest`.
unfoldable pub create_batch_request : List BatchElem → List RpcReq
create_batch_request [] = []
create_batch_request (e ∷ es) = e.req ∷ create_batch_request es

abbrev pub is_receipts_error : ErrorKind → Bool
is_receipts_error receipts_cant_be_batched = true
is_receipts_error receipts_invalid_target = true
is_receipts_error ErrorKind.method_not_whitelisted = false
is_receipts_error ErrorKind.response_too_large = false
is_receipts_error ErrorKind.unexpected_json_rpc = false
is_receipts_error ErrorKind.backend_offline = false
is_receipts_error ErrorKind.over_capacity = false
is_receipts_error ErrorKind.no_backends = false
is_receipts_error ErrorKind.no_multicall_response = false
is_receipts_error ErrorKind.other_error = false

-- `res[i].Error == nil && res[i].Result != nil`.
abbrev pub is_cacheable : RpcRes → Bool
is_cacheable r = elim r.error [
  | some e ↦ false
  | none ↦ elim r.result [ none ↦ false | some v ↦ true ]
]

unfoldable pub error_responses : (ForwardError → AnyErr) → ForwardError → List RpcReq → List RpcRes
error_responses to_any e [] = []
error_responses to_any e (r ∷ rs) = new_rpc_error_res r.id (to_any e) ∷ error_responses to_any e rs
