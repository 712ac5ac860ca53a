-- ===== src/Consensus/Candidates.antt =====
-- consensus_poller.go, `FilterCandidates` and `getConsensusCandidates`. A map from backends to
-- states is the list of its entries.
use bsc_builder_proxyd.Base.{
  ℕ, ◌+◌, ◌-◌, Bool, true, false, ◌&&◌, not, List, [], ◌∷◌, if◌then◌else◌, ltb, filter, is_empty,
}
use bsc_builder_proxyd.Backend.{Backend, is_healthy}
use bsc_builder_proxyd.Consensus.{
  ConsensusPoller, BackendState, get_backend_state, is_banned, primaries, fallbacks,
}

abbrev pub Candidate : Type 0
Candidate = Backend × BackendState

-- The conditions on one backend, in the order of the source.
unfoldable pub is_candidate : ConsensusPoller → ℕ → Backend → Bool
is_candidate cp now be =
    let bs = get_backend_state cp be in
    if be.forced_candidate
    then true
    else if is_banned bs now
    then false
    else if not (is_healthy be now)
    then false
    else if not be.skip_peer_count_check && ltb bs.peer_count cp.min_peer_count
    then false
    else if not bs.in_sync
    then false
    else if ltb (bs.last_update + cp.max_update_threshold) now
    then false
    else true

-- The first loop.
unfoldable pub collect : ConsensusPoller → ℕ → List Backend → List Candidate
collect cp now [] = []
collect cp now (be ∷ bes) =
    let rest = collect cp now bes in
    if is_candidate cp now be then (be, get_backend_state cp be) ∷ rest else rest

-- The second loop: the highest latest block.
unfoldable pub highest_from : ℕ → List Candidate → ℕ
highest_from top [] = top
highest_from top ((be, bs) ∷ cs) =
    highest_from (if ltb top bs.latest_block_number then bs.latest_block_number else top) cs

-- `uint64(highestLatestBlock-bs.latestBlockNumber) > cp.maxBlockLag`; the highest block is at least
-- the candidate's, so the subtraction does not wrap.
unfoldable pub is_lagging : ConsensusPoller → ℕ → Candidate → Bool
is_lagging cp top (be, bs) = ltb cp.max_block_lag (top - bs.latest_block_number)

unfoldable pub filter_candidates : ConsensusPoller → ℕ → List Backend → List Candidate
filter_candidates cp now bes =
    let cs = collect cp now bes in
    let top = highest_from 0 cs in filter (λ c. not (is_lagging cp top c)) cs

-- Fallbacks are looked at only when no primary is left.
unfoldable pub get_consensus_candidates : ConsensusPoller → ℕ → List Candidate
get_consensus_candidates cp now =
    let healthy_primaries = filter_candidates cp now (primaries cp.backend_group) in
    if not (is_empty healthy_primaries)
    then healthy_primaries
    else filter_candidates cp now (fallbacks cp.backend_group)
