-- ===== src/Exchange.antt =====
-- backend.go, `doForward`: one HTTP exchange with a backend. What the backend answers is the parameter
-- `send`, by net/http. The headers of the request are in Exchange.Headers.
pub mod Translation
pub mod Sorting
pub mod Order
pub mod Headers
pub mod Ids
pub mod Answered
pub mod Retries
use bsc_builder_proxyd.Base.{
  ℕ, zero, suc, ◌-◌, Bool, true, false, not, ◌&&◌, ◌||◌, List, [], ◌∷◌, String, Option, none, some,
  ℤ, pos, if◌then◌else◌, ◌==◌, eqb, string_eq, length, insert, lookup, map,
}
use bsc_builder_proxyd.Json.{Json, object, field, end, text, null}
use bsc_builder_proxyd.Rpc.{RpcReq, RpcRes, RpcErr}
use bsc_builder_proxyd.Window.{incr, add}
use bsc_builder_proxyd.Backend.{Backend}
use bsc_builder_proxyd.Routing.{
  ForwardError, ErrorKind, receipts_cant_be_batched, receipts_invalid_target, other_error,
  response_too_large, unexpected_json_rpc, wrap_err,
}
use bsc_builder_proxyd.Exchange.Sorting.{sort_batch_rpc_response}
use bsc_builder_proxyd.Exchange.Translation.{
  Wire, Translated, Translating, translated, stopped, lost, kind_error, prepare,
}

-- The body of an answer, read through the limit on its size.
pub data BodyRead : Type 0 where
  whole : String → BodyRead
  over_limit : BodyRead
  read_error : BodyRead

pub data Sent : Type 0 where
  not_created : Sent
  no_answer : Sent
  answered : ℕ → BodyRead → Sent

pub data Outcome : Type 0 where
  got : List RpcRes → Outcome
  failed : ForwardError → Outcome
  panicked : Outcome

-- The backend and the requests as the call leaves them: the requests are pointers.
pub record Exchanged : Type 0 where
  pub backend : Backend
  pub requests : List RpcReq
  pub outcome : Outcome

-- The decoded responses, or an error that counts as one of the network, or one that does not.
pub data Decoded : Type 0 where
  decoded : List (Option RpcRes) → Decoded
  counted : ErrorKind → Decoded
  uncounted : ErrorKind → Decoded

unfoldable pub decode : Wire → Bool → String → Decoded
decode wire single body =
    if single
    then elim (wire.unmarshal_res body) [
      | none ↦ uncounted other_error
      | some r ↦ decoded (some r ∷ [])
    ]
    else elim (wire.unmarshal_batch body) [
      | some rs ↦ decoded rs
      | none ↦ elim (wire.unmarshal_res body) [
        | some r ↦ counted unexpected_json_rpc
        | none ↦ counted other_error
      ]
    ]

-- `res.Error.HTTPErrorCode = status`, which panics where there is no error.
abbrev with_status : ℕ → RpcRes → Option RpcRes
with_status status r = elim r.error [
  | none ↦ none
  | some e ↦ some (record r { error = some (record e { http_error_code = status }) })
]

abbrev or_null : Option Json → Json
or_null none = null
or_null (some v) = v

-- The result with the method that was asked for.
abbrev enrich : List (String × String) → RpcRes → RpcRes
enrich methods r = elim (lookup r.id methods) [
  | none ↦ r
  | some m ↦ record r {
    result = some (object (field "method" (text m) (field "result" (or_null r.result) end)));
  }
]

abbrev capture : ℕ → RpcRes → Option RpcRes
capture status r = if status == 200 then some r else with_status status r

abbrev cons_option : Option RpcRes → Option (List RpcRes) → Option (List RpcRes)
cons_option none rs = none
cons_option (some r) none = none
cons_option (some r) (some rs) = some (r ∷ rs)

-- The two loops over the responses; a `null` among them panics.
unfoldable pub finish_responses :
    ℕ → List (String × String) → List (Option RpcRes) → Option (List RpcRes)
finish_responses status methods [] = some []
finish_responses status methods (none ∷ rs) = none
finish_responses status methods (some r ∷ rs) = elim (capture status r) [
  | none ↦ none
  | some r' ↦ cons_option (some (enrich methods r')) (finish_responses status methods rs)
]

abbrev of_sorted : Option (List RpcRes) → Outcome
of_sorted none = panicked
of_sorted (some rs) = got rs

abbrev of_finished : List RpcReq → Option (List RpcRes) → Outcome
of_finished reqs none = panicked
of_finished reqs (some rs) = of_sorted (sort_batch_rpc_response reqs rs)

-- `now` is the time of the call and of its sending, `later` that at which the answer has been read. The
-- readings of the windows for metrics are left out: what they evict no later reading counts.
module _ (wire : Wire) (send : List RpcReq → Sent) (now later : ℕ) where
  abbrev count_request : Backend → Backend
  count_request b = record b {
    network_requests_sliding_window = incr b.network_requests_sliding_window now;
  }

  abbrev count_error : Backend → Backend
  count_error b = record b {
    intermittent_errors_sliding_window = incr b.intermittent_errors_sliding_window later;
  }

  abbrev count_latency : Backend → Backend
  count_latency b = record b {
    latency_sliding_window = add b.latency_sliding_window later (pos (later - now));
  }

  abbrev network_failure : Backend → List RpcReq → ForwardError → Exchanged
  network_failure b reqs e = record { backend = count_error b; requests = reqs; outcome = failed e }

  unfoldable pub accept : Backend → Translated → ℕ → List (Option RpcRes) → Exchanged
  accept b t status rs =
      if length t.requests == length rs
      then record {
        backend = count_latency b;
        requests = t.requests;
        outcome = of_finished t.requests (finish_responses status t.methods rs);
      }
      else network_failure b t.requests (kind_error unexpected_json_rpc)

  unfoldable pub receive : Backend → Translated → ℕ → String → Exchanged
  receive b t status body = elim (decode wire (length t.requests == 1) body) [
    | decoded rs ↦ accept b t status rs
    | counted k ↦ network_failure b t.requests (kind_error k)
    | uncounted k ↦ record { backend = b; requests = t.requests; outcome = failed (kind_error k) }
  ]

  unfoldable pub read_answer : Backend → Translated → ℕ → BodyRead → Exchanged
  read_answer b t status (whole body) = receive b t status body
  read_answer b t status over_limit = record {
    backend = b;
    requests = t.requests;
    outcome = failed (kind_error response_too_large);
  }
  read_answer b t status read_error =
      network_failure b t.requests (wrap_err (kind_error other_error))

  -- An answer to no request at all panics: the method of the first labels a metric.
  unfoldable pub answer_to : Backend → Translated → Sent → Exchanged
  answer_to b t not_created = network_failure b t.requests (wrap_err (kind_error other_error))
  answer_to b t no_answer = network_failure b t.requests (wrap_err (kind_error other_error))
  answer_to b t (answered status body) =
      if length t.requests == 0
      then record { backend = b; requests = t.requests; outcome = panicked }
      else if status == 200 || status == 400
      then read_answer b t status body
      else network_failure b t.requests (kind_error other_error)

  unfoldable pub do_forward : Backend → List RpcReq → Bool → Exchanged
  do_forward b reqs is_batch =
      let b' = count_request b in
      elim (prepare wire b.receipts_target is_batch reqs) [
        | lost ↦ record { backend = b'; requests = reqs; outcome = panicked }
        | stopped reqs' e ↦ record { backend = b'; requests = reqs'; outcome = failed e }
        | translated t ↦ answer_to b' t (send t.requests)
      ]

-- `ForwardRPC` after the exchange: the one response, or none for an error.
unfoldable pub single_response : Outcome → Option RpcRes
single_response (got []) = none
single_response (got (r ∷ [])) = elim r.error [ none ↦ some r | some e ↦ none ]
single_response (got (r ∷ r' ∷ rs)) = none
single_response (failed e) = none
single_response panicked = none
