-- ===== src/Routing.antt =====
-- backend.go: which backends a request goes to, the retries at one backend and the fail over to the
-- next. What `Backend.doForward` returns at each attempt is the parameter `Attempts`; the two ways to
-- shuffle, of math/rand and of the package weightedshuffle, are the parameter `Shuffles`.
pub mod Failover
pub mod Group
pub mod Answers
pub mod Order
pub mod Lengths
use Prim.Native.String as Text
use bsc_builder_proxyd.Base.{
  ℕ, zero, suc, ◌+◌, Bool, true, false, not, ◌&&◌, ◌||◌, List, [], ◌∷◌, ◌++◌, String, Option, none,
  some, if◌then◌else◌, filter, eqb, string_eq, is_empty,
}
use bsc_builder_proxyd.Rpc.{RpcReq, RpcRes, is_error}
use bsc_builder_proxyd.Backend.{Backend, is_healthy, is_degraded}
use bsc_builder_proxyd.Consensus.{BackendGroup, ConsensusPoller}

-- The errors that the routing tells apart.
pub data ErrorKind : Type 0 where
  receipts_cant_be_batched receipts_invalid_target method_not_whitelisted response_too_large
        unexpected_json_rpc backend_offline over_capacity no_backends no_multicall_response
        other_error :
      ErrorKind

-- `errors.Is` looks through a wrapping; a `switch` on the error does not.
pub record ForwardError : Type 0 where
  pub kind : ErrorKind
  pub wrapped : Bool

abbrev pub wrap_err : ForwardError → ForwardError
wrap_err e = record e { wrapped = true }

-- `crashed` is a panic.
pub data Answer : Type 0 where
  responses : List RpcRes → Answer
  failure : ForwardError → Answer
  crashed : Answer

abbrev pub Attempts : Type 0
Attempts = Backend → ℕ → List RpcReq → Bool → Answer

-- The cases of the `switch` in `Forward` that return at once.
unfoldable pub is_final : ForwardError → Bool
is_final e = not e.wrapped && elim e.kind [
  | response_too_large ↦ true
  | receipts_cant_be_batched ↦ true
  | receipts_invalid_target ↦ true
  | unexpected_json_rpc ↦ true
  | method_not_whitelisted ↦ false
  | backend_offline ↦ false
  | over_capacity ↦ false
  | no_backends ↦ false
  | no_multicall_response ↦ false
  | other_error ↦ false
]

-- The loop of `Backend.Forward`: `left` attempts are left, `i` were made.
unfoldable pub forward_from :
    Attempts → Backend → List RpcReq → Bool → ℕ → ℕ → ForwardError → Answer
forward_from do_forward b reqs is_batch zero i last = failure (wrap_err last)
forward_from do_forward b reqs is_batch (suc left) i last = elim (do_forward b i reqs is_batch) [
  | responses res ↦ responses res
  | failure e ↦ elim (is_final e) [
    | true ↦ failure e
    | false ↦ forward_from do_forward b reqs is_batch left (suc i) e
  ]
  | crashed ↦ crashed
]

unfoldable pub forward : Attempts → Backend → List RpcReq → Bool → Answer
forward do_forward b reqs is_batch =
    forward_from do_forward b reqs is_batch (suc b.max_retries) 0
      (record { kind = other_error; wrapped = false })

-- `BackendGroupRPCResponse`.
pub record GroupResponse : Type 0 where
  pub res : List RpcRes
  pub served_by : String
  pub error : Option ForwardError

abbrev pub group_error : ForwardError → GroupResponse
group_error e = record { res = []; served_by = ""; error = some e }

-- The errors that the client gets at once.
unfoldable pub is_fatal : ForwardError → Bool
is_fatal e = elim e.kind [
  | receipts_cant_be_batched ↦ true
  | receipts_invalid_target ↦ true
  | method_not_whitelisted ↦ true
  | response_too_large ↦ true
  | unexpected_json_rpc ↦ false
  | backend_offline ↦ false
  | over_capacity ↦ false
  | no_backends ↦ false
  | no_multicall_response ↦ false
  | other_error ↦ false
]

abbrev pub answer_at : Attempts → List RpcReq → Bool → Backend → Answer
answer_at do_forward reqs is_batch b =
    if is_empty reqs then responses [] else forward do_forward b reqs is_batch

-- `ForwardRequestToBackendGroup`; `name` is the group's, and `none` is a panic.
unfoldable pub forward_request_to_backend_group :
    Attempts → String → List RpcReq → Bool → List Backend → Option GroupResponse
forward_request_to_backend_group do_forward name reqs is_batch [] =
    some (group_error (record { kind = no_backends; wrapped = false }))
forward_request_to_backend_group do_forward name reqs is_batch (b ∷ bs) =
    elim (answer_at do_forward reqs is_batch b) [
      | responses res ↦
          some
            (record { res = res; served_by = Text.◌++◌ name (Text.◌++◌ "/" b.name); error = none })
      | failure e ↦ elim (is_fatal e) [
        | true ↦ some (group_error e)
        | false ↦ forward_request_to_backend_group do_forward name reqs is_batch bs
      ]
      | crashed ↦ none
    ]

pub record Shuffles : Type 0 where
  pub shuffle_healthy : List Backend → List Backend
  pub shuffle_degraded : List Backend → List Backend
  pub weighted_healthy : List Backend → List Backend
  pub weighted_unhealthy : List Backend → List Backend

unfoldable pub load_balanced_consensus_group :
    Shuffles → BackendGroup → ConsensusPoller → ℕ → List Backend
load_balanced_consensus_group sh bg cp now =
    let cg = cp.consensus_group in
    let healthy =
      sh.shuffle_healthy (filter (λ be. is_healthy be now && not (is_degraded be now)) cg) in
    let degraded =
      sh.shuffle_degraded (filter (λ be. is_healthy be now && is_degraded be now) cg) in
    (if bg.weighted_routing then sh.weighted_healthy healthy else healthy) ++ degraded

unfoldable pub ordered_backends_for_request :
    Shuffles → BackendGroup → Option ConsensusPoller → ℕ → List Backend
ordered_backends_for_request sh bg (some cp) now = load_balanced_consensus_group sh bg cp now
ordered_backends_for_request sh bg none now =
    let healthy = filter (λ be. is_healthy be now) bg.backends in
    let unhealthy = filter (λ be. not (is_healthy be now)) bg.backends in
    (if bg.weighted_routing then sh.weighted_healthy healthy else healthy)
    ++ (if bg.weighted_routing then sh.weighted_unhealthy unhealthy else unhealthy)
