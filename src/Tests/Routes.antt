-- ===== src/Tests/Routes.antt =====
-- Two backends, the first of which is offline.
use mathlib.Core.List.{Permᴰ}
use mathlib.Core.List.Permᴰ
use bsc_builder_proxyd.Base.{
  ◌≡◌, ◌≢◌, String, refl, inl, inr, true, false, List, [], ◌∷◌, none, some, if◌then◌else◌, ◌==◌,
  arith, All, map, Bool-cases, string_eq, ap, subst,
}
use bsc_builder_proxyd.Json.{text}
use bsc_builder_proxyd.Rpc.{RpcReq, RpcRes, is_error}
use bsc_builder_proxyd.Window.{new_sliding_window, sum_of, avg, advance, advance_from, round}
use bsc_builder_proxyd.Backend.{
  Backend, new_backend, override, is_healthy, is_degraded, error_rate, latency_reaches,
}
use bsc_builder_proxyd.Consensus.{ConsensusPoller}
use bsc_builder_proxyd.Rewriter.Overrides.{
  overwrite_consensus_responses, overwrite_from, rewrite_tags, rewrite_request, rewrite_response,
  rule_of, override_responses, override_one,
}
use bsc_builder_proxyd.Routing.{
  Attempts, responses, failure, ForwardError, backend_offline, forward, forward_from, is_final,
  is_fatal, forward_request_to_backend_group, GroupResponse, Shuffles,
  load_balanced_consensus_group, ordered_backends_for_request,
}
use bsc_builder_proxyd.Routing.Group.{
  consensus_aware, group_forward, forward_rewritten, takes_multicall, process_multicall_responses,
  context_of,
}
use bsc_builder_proxyd.Routing.Failover.{
  Gives, IsLawful, forward_request_to_backend_group_first, load_balanced_consensus_group-All,
}
use bsc_builder_proxyd.Routing.Answers.{process_multicall_responses_first}
use bsc_builder_proxyd.Routing.Order.{InOrder, IsOrdered, group_forward-InOrder}
use bsc_builder_proxyd.Exchange.Ids.{ids_of}
use bsc_builder_proxyd.Tests.Poller.{first, second_backend, group, poller}
use bsc_builder_proxyd.Tests.Requests.{codec, batch, own, backends_own, ask_version}

abbrev offline : ForwardError
offline = record { kind = backend_offline; wrapped = true }

abbrev answer_all : List RpcReq → List RpcRes
answer_all reqs =
    map (λ r. record { jsonrpc = "2.0"; result = some (text "56"); error = none; id = r.id }) reqs

abbrev retrying : Backend
retrying = record second_backend { max_retries = 2 }

-- The first backend is offline; another fails at its first attempt.
abbrev do_forward : Attempts
do_forward b i reqs is_batch =
    if b.id == 1
    then failure offline
    else if i == 0
    then failure offline
    else responses (answer_all reqs)

forward_request_to_backend_group_first_example : Gives (responses (answer_all (ask_version ∷ []))) (
    forward_request_to_backend_group do_forward "main"
      (ask_version ∷ [])
      false
      (first ∷ retrying ∷ second_backend ∷ []))
unfolding new_backend override forward forward_from is_final is_fatal
forward_request_to_backend_group_first_example =
    forward_request_to_backend_group_first do_forward "main" (ask_version ∷ []) false (first ∷ [])
      (second_backend ∷ []) retrying (refl, tt) tt

abbrev swap_two : List Backend → List Backend
swap_two [] = []
swap_two (b ∷ []) = b ∷ []
swap_two (b ∷ c ∷ bs) = c ∷ b ∷ bs

abbrev shuffles : Shuffles
shuffles = record {
  shuffle_healthy = swap_two;
  shuffle_degraded = λ bs. bs;
  weighted_healthy = swap_two;
  weighted_unhealthy = λ bs. bs;
}

swap_two_perm : (bs : List Backend) → Permᴰ bs (swap_two bs)
swap_two_perm [] = Permᴰ.refl []
swap_two_perm (b ∷ []) = Permᴰ.refl (b ∷ [])
swap_two_perm (b ∷ c ∷ bs) = Permᴰ.swap refl refl

shuffles-IsLawful : IsLawful shuffles
shuffles-IsLawful = record {
  healthy_perm = swap_two_perm;
  degraded_perm = Permᴰ.refl;
  weighted_perm = swap_two_perm;
}

abbrev agreed : ConsensusPoller
agreed = record poller {
  consensus_group = first ∷ retrying ∷ [];
  tracker = record { latest = 7; safe = 6; finalized = 6 };
}

load_balanced_consensus_group-All_example :
    All (λ be. is_healthy be 5 ≡ true) (load_balanced_consensus_group shuffles group agreed 5)
load_balanced_consensus_group-All_example =
    load_balanced_consensus_group-All shuffles group agreed 5 shuffles-IsLawful

answer_all-InOrder : (reqs : List RpcReq) → InOrder reqs (answer_all reqs)
answer_all-InOrder [] = refl
answer_all-InOrder (r ∷ reqs) = ap (◌∷◌ r.id) (answer_all-InOrder reqs)

do_forward-IsOrdered : IsOrdered do_forward
do_forward-IsOrdered b i reqs is_batch res n d e = elim (Bool-cases (b.id == 1)) [
  | inl x ↦ absurd (ground (arith, e, x))
  | inr x ↦ elim (Bool-cases (i == 0)) [
    | inl y ↦ absurd (ground (arith, e, x, y))
    | inr y ↦
        let same : answer_all reqs ≡ res = ground (arith, e, x, y) in
        subst (InOrder reqs) same (answer_all-InOrder reqs)
  ]
]

abbrev served : GroupResponse
served = record { res = own ∷ backends_own ∷ []; served_by = "main/second"; error = none }

group_forward_run :
    group_forward codec do_forward shuffles
      (λ rs. rs)
      consensus_aware
      group
      (some agreed)
      5
      batch
      true
    ≡ some served
unfolding new_backend override group_forward forward_rewritten takes_multicall
    ordered_backends_for_request load_balanced_consensus_group forward_request_to_backend_group
    forward forward_from is_final is_fatal context_of overwrite_consensus_responses overwrite_from
    rewrite_tags rewrite_request rewrite_response rule_of override_responses override_one is_healthy
    is_degraded error_rate latency_reaches sum_of avg advance advance_from round new_sliding_window
group_forward_run = refl

no_truth : false ≡ true → ⊥
no_truth h = cc

three_four : ◌≢◌ {A = String} "3" "4"
three_four h = no_truth ((string_eq.beq_iff "3" "4").1 h)

group_forward-InOrder_example : map (λ r. r.id) served.res ≡ ids_of batch
group_forward-InOrder_example =
    group_forward-InOrder codec do_forward shuffles (λ rs. rs) consensus_aware group (some agreed) 5
      batch true served do_forward-IsOrdered ((three_four, tt), (tt, tt)) (λ e. cc)
      group_forward_run refl

abbrev refused : GroupResponse
refused = record { res = []; served_by = ""; error = some offline }

process_multicall_responses_first_example :
    process_multicall_responses true refused (refused ∷ served ∷ refused ∷ []) ≡ some served
unfolding is_error
process_multicall_responses_first_example =
    process_multicall_responses_first true refused (refused ∷ []) (refused ∷ []) served
      (inl (offline, refl), tt) (refl, inr (refl, refl))
