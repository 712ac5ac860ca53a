-- ===== src/Tests/Poller.antt =====
-- Two backends that disagree on block 7 and agree on block 6.
use mathlib.Core.List.Permᴰ
use bsc_builder_proxyd.Base.{
  ℕ, ◌+◌, ◌≤◌, ◌≡◌, refl, inl, inr, true, false, List, [], ◌∷◌, String, Option, none, some,
  if◌then◌else◌, ◌==◌, eqb, string_eq, Bool-cases, All, arith, is_empty, filter, lookup, nat_eq,
  ◌||◌, ◌*◌,
}
use bsc_builder_proxyd.Json.{Json, text, object, field, end, boolean, field_of}
use bsc_builder_proxyd.Window.{
  new_sliding_window, sum_of, avg, advance, advance_from, round, second,
}
use bsc_builder_proxyd.Backend.{
  Backend, BackendOpt, new_backend, override, with_consensus_forced_candidate, is_healthy,
  error_rate, latency_reaches, scale,
}
use bsc_builder_proxyd.Backend as Backend
use bsc_builder_proxyd.Consensus.{
  ConsensusPoller, BackendState, BackendGroup, zero_state, get_backend_state, is_banned, primaries,
  fallbacks, is_primary, is_fallback, new_consensus_poller, reset, apply_opts,
}
use bsc_builder_proxyd.Consensus.Fetch.{Net, fetch_block, block_of, ok}
use bsc_builder_proxyd.Consensus.Update.{update_backend}
use bsc_builder_proxyd.Consensus.Candidates.{
  Candidate, is_candidate, collect, highest_from, is_lagging, filter_candidates,
  get_consensus_candidates,
}
use bsc_builder_proxyd.Consensus.Group.{
  update_backend_group_consensus, publish, judge, walk, settle, member, no_lowest, lower,
  lowest_from, GroupUpdate,
}
use bsc_builder_proxyd.Consensus.Tags.{
  IsOrdered, Advances, update_backend-IsOrdered, update_backend-Advances,
}
use bsc_builder_proxyd.Consensus.Eligible.{
  IsCurrent, filter_candidates-IsCurrent, filter_candidates_lag, filter_candidates_nonempty,
}
use bsc_builder_proxyd.Consensus.Agreement.{AllFit, update_group-AllFit}
use bsc_builder_proxyd.Consensus.Rounds.{
  Windows, with_windows, write, start, later, new_polling, after_write,
}
use bsc_builder_proxyd.Consensus.Reachable.{IsSound, Reached-IsSound}
use bsc_builder_proxyd.Consensus.Descent.{AllHave, AllCalm, update_group_ends}

abbrev pub first : Backend
first = new_backend 1 "first" "" "" []

abbrev pub second_backend : Backend
second_backend = new_backend 2 "second" "" "" []

abbrev forced : Backend
unfolding new_backend override Backend.apply_opt
forced = new_backend 3 "forced" "" "" (with_consensus_forced_candidate true ∷ [])

abbrev pub group : BackendGroup
group = record {
  name = "main";
  backends = first ∷ second_backend ∷ [];
  weighted_routing = false;
  fallback_backends = ("first", false) ∷ ("second", false) ∷ [];
  multicall_rpc_error_check = false;
}

abbrev state : ℕ → BackendState
state id = record {
  latest_block_number = 7;
  latest_block_hash = if id == 1 then "a7" else "b7";
  safe_block_number = 6;
  finalized_block_number = 6;
  peer_count = 5;
  in_sync = true;
  last_update = 4;
  banned_until = 0;
}

abbrev pub poller : ConsensusPoller
poller = record {
  listeners = 1 ∷ [];
  backend_group = group;
  backend_state = state;
  consensus_group = [];
  tracker = record { latest = 6; safe = 6; finalized = 6 };
  min_peer_count = 3;
  ban_period = 300 * second;
  max_update_threshold = 30 * second;
  max_block_lag = 8;
  max_block_range = 0;
  interval = second;
}

abbrev encode : ℕ → String
encode n = if n == 7 then "0x7" else "0x6"

abbrev decode : String → Option ℕ
decode s =
    if eqb s "0x7"
    then some 7
    else if eqb s "0x6"
    then some 6
    else if eqb s "0x0"
    then some 0
    else none

abbrev block : String → String → Json
block n h = object (field "number" (text n) (field "hash" (text h) end))

abbrev answer_block : ℕ → List Json → Option Json
answer_block id (text tag ∷ rest) =
    if eqb tag "0x6" || eqb tag "safe" || eqb tag "finalized"
    then some (block "0x6" "h6")
    else some (block "0x7" (if id == 1 then "a7" else "b7"))
answer_block id ps = none

abbrev answer_rpc : Backend → String → List Json → Option Json
answer_rpc be method ps =
    if eqb method "eth_getBlockByNumber"
    then answer_block be.id ps
    else if eqb method "eth_syncing"
    then some (boolean false)
    else some (text "0x7")

abbrev net : Net
net = record { forward_rpc = answer_rpc; decode_uint64 = decode }

fetch_seven : fetch_block net first "0x7" ≡ ok (7, "a7")
unfolding fetch_block block_of field_of new_backend override
fetch_seven = refl

healthy : (is_healthy first 5 ≡ true) × (is_healthy second_backend 5 ≡ true)
unfolding new_backend override is_healthy error_rate latency_reaches sum_of avg advance advance_from
    round new_sliding_window
healthy = (refl, refl)

abbrev candidates : List Candidate
candidates = (first, state 1) ∷ (second_backend, state 2) ∷ []

candidates_run : get_consensus_candidates poller 5 ≡ candidates
unfolding new_backend override get_consensus_candidates filter_candidates collect is_candidate
    is_banned get_backend_state primaries is_primary fallbacks is_fallback is_healthy error_rate
    latency_reaches sum_of avg advance advance_from round new_sliding_window highest_from is_lagging
    lookup
candidates_run = refl

abbrev identity : List Candidate → ℕ → List Candidate
identity cs n = cs

abbrev agreed_on_six : GroupUpdate
agreed_on_six = record {
  poller = record poller {
    tracker = record { latest = 6; safe = 6; finalized = 6 };
    consensus_group = first ∷ second_backend ∷ [];
  };
  notified = [];
}

update_run :
    update_backend_group_consensus (λ n. net) encode identity 9 poller 5 ≡ some agreed_on_six
unfolding new_backend override get_consensus_candidates filter_candidates collect is_candidate
    is_banned get_backend_state primaries is_primary fallbacks is_fallback is_healthy error_rate
    latency_reaches sum_of avg advance advance_from round new_sliding_window highest_from is_lagging
    lookup update_backend_group_consensus publish judge walk settle member no_lowest lower
    lowest_from fetch_block block_of field_of
update_run = refl

update_group-AllFit_example :
    ((m : ℕ) × (h : String) × AllFit net encode 6 h (get_consensus_candidates poller 5))
    × ((first ∷ second_backend ∷ [])
        ≡ filter (member (get_consensus_candidates poller 5)) group.backends)
unfolding new_backend override get_consensus_candidates filter_candidates collect is_candidate
    is_banned get_backend_state primaries is_primary fallbacks is_fallback is_healthy error_rate
    latency_reaches sum_of avg advance advance_from round new_sliding_window highest_from is_lagging
    lookup no_lowest lower lowest_from
update_group-AllFit_example =
    update_group-AllFit (λ n. net) encode identity 9 poller 5 (λ cs n. Permᴰ.refl cs) agreed_on_six
      update_run (omega arith)

AllHave-six : AllHave net encode 6 "h6" (get_consensus_candidates poller 5)
unfolding new_backend override get_consensus_candidates filter_candidates collect is_candidate
    is_banned get_backend_state primaries is_primary fallbacks is_fallback is_healthy error_rate
    latency_reaches sum_of avg advance advance_from round new_sliding_window highest_from is_lagging
    lookup fetch_block block_of field_of
AllHave-six = ((refl, refl), ((refl, refl), tt))

AllCalm-all : (j : ℕ) → AllCalm net encode j (get_consensus_candidates poller 5)
unfolding new_backend override get_consensus_candidates filter_candidates collect is_candidate
    is_banned get_backend_state primaries is_primary fallbacks is_fallback is_healthy error_rate
    latency_reaches sum_of avg advance advance_from round new_sliding_window highest_from is_lagging
    lookup fetch_block block_of field_of
AllCalm-all j = elim (Bool-cases (j == 7)) [
  | inl e ↦ rw e (tt, (tt, tt))
  | inr e ↦ rw e (tt, (tt, tt))
]

update_group_ends_example :
    (u : GroupUpdate) × (update_backend_group_consensus (λ n. net) encode identity 9 poller 5
      ≡ some u)
    × (6 ≤ u.poller.tracker.latest)
    × (u.poller.tracker.latest
        ≤ (lowest_from no_lowest (identity (get_consensus_candidates poller 5) 0)).latest)
unfolding new_backend override get_consensus_candidates filter_candidates collect is_candidate
    is_banned get_backend_state primaries is_primary fallbacks is_fallback is_healthy error_rate
    latency_reaches sum_of avg advance advance_from round new_sliding_window highest_from is_lagging
    lookup no_lowest lower lowest_from
update_group_ends_example =
    update_group_ends (λ n. net) encode identity 9 poller 5 (λ cs n. Permᴰ.refl cs) 6 "h6"
      (λ k. AllHave-six) (λ k j. AllCalm-all j) (omega arith) (omega arith) (omega arith)

update_backend-IsOrdered_example :
    IsOrdered (get_backend_state (update_backend net poller 5 first).poller first)
unfolding new_backend override get_backend_state
update_backend-IsOrdered_example =
    update_backend-IsOrdered net poller 5 first refl (omega arith, omega arith)

update_backend-Advances_example :
    Advances
      (5 + poller.ban_period)
      (get_backend_state poller first)
      (get_backend_state (update_backend net poller 5 first).poller first)
unfolding new_backend override
update_backend-Advances_example = update_backend-Advances net poller 5 first refl

filter_candidates-IsCurrent_example :
    All (IsCurrent poller 5) (filter_candidates poller 5 group.backends)
filter_candidates-IsCurrent_example = filter_candidates-IsCurrent poller 5 group.backends

filter_candidates_lag_example :
    let cs = filter_candidates poller 5 group.backends in
    All (λ c. All (λ d. d.1.latest_block_number ≤ c.1.latest_block_number + 8) cs) cs
filter_candidates_lag_example = filter_candidates_lag poller 5 group.backends

filter_candidates_nonempty_example : is_empty (filter_candidates poller 5 group.backends) ≡ false
unfolding new_backend override get_consensus_candidates filter_candidates collect is_candidate
    is_banned get_backend_state primaries is_primary fallbacks is_fallback is_healthy error_rate
    latency_reaches sum_of avg advance advance_from round new_sliding_window highest_from is_lagging
    lookup
filter_candidates_nonempty_example = filter_candidates_nonempty poller 5 group.backends refl

abbrev reset_candidate : Candidate
unfolding zero_state
reset_candidate = (forced, zero_state)

abbrev quiet : Windows
quiet = record {
  latency = new_sliding_window 0 0;
  network_requests = new_sliding_window 0 0;
  intermittent_errors = new_sliding_window 0 0;
}

Reached-IsSound_example :
    IsSound group (after_write (new_polling group []) net 5 (with_windows quiet first))
unfolding new_polling new_consensus_poller reset apply_opts new_backend override
Reached-IsSound_example =
    Reached-IsSound group [] (later start (write net 5 first quiet (inl refl) refl))
