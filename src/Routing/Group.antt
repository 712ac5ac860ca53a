-- ===== src/Routing/Group.antt =====
-- backend.go, `BackendGroup.Forward` and the multicall strategy. `arrive` is the order in which the
-- backends' responses reach the channel; `none` is a panic.
use bsc_builder_proxyd.Base.{
  ℕ, Bool, true, false, not, ◌&&◌, ◌||◌, List, [], ◌∷◌, Option, none, some, if◌then◌else◌, filter,
  eqb, string_eq, is_empty, map,
}
use bsc_builder_proxyd.Rpc.{RpcReq, RpcRes, is_error}
use bsc_builder_proxyd.Backend.{Backend, is_healthy}
use bsc_builder_proxyd.Consensus.{BackendGroup, ConsensusPoller}
use bsc_builder_proxyd.Rewriter.{Codec, RewriteContext}
use bsc_builder_proxyd.Rewriter.Overrides.{
  Overwritten, overwrite_consensus_responses, override_responses,
}
use bsc_builder_proxyd.Routing.{
  Attempts, GroupResponse, group_error, no_multicall_response, forward_request_to_backend_group,
  Shuffles, ordered_backends_for_request,
}

pub data RoutingStrategy : Type 0 where
  consensus_aware multicall fallback : RoutingStrategy

abbrev is_multicall : RoutingStrategy → Bool
is_multicall consensus_aware = false
is_multicall multicall = true
is_multicall fallback = false

unfoldable pub is_valid_multicall_tx : List RpcReq → Bool
is_valid_multicall_tx [] = false
is_valid_multicall_tx (r ∷ []) =
    eqb r.method "eth_sendRawTransaction" || eqb r.method "eth_sendBundle"
is_valid_multicall_tx (r ∷ s ∷ rs) = false

-- `resp.RPCRes[0].IsError()`.
abbrev pub first_is_error : List RpcRes → Option Bool
first_is_error [] = none
first_is_error (r ∷ rs) = some (is_error r)

-- The loop over the channel; `final` is the last response that was not a success.
unfoldable pub process_multicall_responses :
    Bool → GroupResponse → List GroupResponse → Option GroupResponse
process_multicall_responses check final [] = some final
process_multicall_responses check final (resp ∷ resps) = elim resp.error [
  | some e ↦ process_multicall_responses check resp resps
  | none ↦ elim check [
    | false ↦ some resp
    | true ↦ elim (first_is_error resp.res) [
      | none ↦ none
      | some bad ↦ elim bad [
        | true ↦ process_multicall_responses check resp resps
        | false ↦ some resp
      ]
    ]
  ]
]

-- The healthy backends, or all if none is.
unfoldable pub multicall_targets : BackendGroup → ℕ → List Backend
multicall_targets bg now =
    let healthy = filter (λ be. is_healthy be now) bg.backends in
    if is_empty healthy then bg.backends else healthy

-- A panic in one of the goroutines ends the process.
unfoldable pub all_return : List (Option GroupResponse) → Option (List GroupResponse)
all_return [] = some []
all_return (none ∷ rs) = none
all_return (some r ∷ rs) = elim (all_return rs) [ none ↦ none | some qs ↦ some (r ∷ qs) ]

unfoldable pub execute_multicall :
    Attempts
    → (List GroupResponse → List GroupResponse)
    → BackendGroup
    → ℕ
    → List RpcReq
    → Option GroupResponse
execute_multicall do_forward arrive bg now reqs =
    elim (all_return (
      map (λ be. forward_request_to_backend_group do_forward bg.name reqs false (be ∷ []))
        (multicall_targets bg now))) [
          | none ↦ none
          | some rs ↦
              process_multicall_responses bg.multicall_rpc_error_check
                (group_error (record { kind = no_multicall_response; wrapped = false })) (arrive rs)
        ]

unfoldable pub context_of : ConsensusPoller → RewriteContext
context_of cp = record {
  latest = cp.tracker.latest;
  safe = cp.tracker.safe;
  finalized = cp.tracker.finalized;
  max_block_range = cp.max_block_range;
}

abbrev pub overwrite : Codec → Option ConsensusPoller → List RpcReq → Option Overwritten
overwrite codec none reqs = some (record { requests = reqs; overridden = [] })
overwrite codec (some cp) reqs = overwrite_consensus_responses codec (context_of cp) reqs

-- What is done with the response of the group.
abbrev pub with_overrides : Overwritten → GroupResponse → GroupResponse
with_overrides o resp = elim resp.error [
  | some e ↦ resp
  | none ↦ record resp { res = override_responses resp.res o.overridden }
]

-- The strategy is tested on the requests as they were rewritten.
unfoldable pub takes_multicall : RoutingStrategy → List RpcReq → Bool → Bool
takes_multicall strategy reqs is_batch =
    is_multicall strategy && (is_valid_multicall_tx reqs && not is_batch)

unfoldable pub forward_rewritten :
    Attempts
    → Shuffles
    → (List GroupResponse → List GroupResponse)
    → RoutingStrategy
    → BackendGroup
    → Option ConsensusPoller
    → ℕ
    → Bool
    → Overwritten
    → Option GroupResponse
forward_rewritten do_forward sh arrive strategy bg consensus now is_batch o =
    if takes_multicall strategy o.requests is_batch
    then execute_multicall do_forward arrive bg now o.requests
    else elim (forward_request_to_backend_group do_forward bg.name o.requests is_batch
        (ordered_backends_for_request sh bg consensus now)) [
          | none ↦ none
          | some resp ↦ some (with_overrides o resp)
        ]

unfoldable pub group_forward :
    Codec
    → Attempts
    → Shuffles
    → (List GroupResponse → List GroupResponse)
    → RoutingStrategy
    → BackendGroup
    → Option ConsensusPoller
    → ℕ
    → List RpcReq
    → Bool
    → Option GroupResponse
group_forward codec do_forward sh arrive strategy bg consensus now reqs is_batch =
    if is_empty reqs
    then some (record { res = []; served_by = ""; error = none })
    else elim (overwrite codec consensus reqs) [
      | none ↦ none
      | some o ↦ forward_rewritten do_forward sh arrive strategy bg consensus now is_batch o
    ]
