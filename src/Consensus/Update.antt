-- ===== src/Consensus/Update.antt =====
-- consensus_poller.go, `UpdateBackend`: the round of requests to one backend and what it writes.
use bsc_builder_proxyd.Base.{ℕ, Bool, true, false, ◌&&◌, not, String, if◌then◌else◌, ◌==◌}
use bsc_builder_proxyd.Window.{incr}
use bsc_builder_proxyd.Backend.{Backend, is_healthy}
use bsc_builder_proxyd.Consensus.Fetch.{
  Net, Outcome, ok, err, crash, fetch_block, get_peer_count, is_in_sync,
}
use bsc_builder_proxyd.Consensus.{
  ConsensusPoller, BackendState, get_backend_state, is_banned, ban, set_backend_state,
  check_expected_block_tags,
}

-- The requests end with all five answers, at an error, at a zero that counts as an intermittent
-- error, or in a panic.
pub data Answers : Type 0 where
  answers : ℕ → Bool → ℕ → String → ℕ → ℕ → Answers
  failed : Answers
  zero_answer : Answers
  panicked : Answers

-- A block number that must not be 0.
abbrev pub nonzero : Outcome (ℕ × String) → (ℕ → String → Answers) → Answers
nonzero err k = failed
nonzero crash k = panicked
nonzero (ok (n, hash)) k = if n == 0 then zero_answer else k n hash

unfoldable pub ask_blocks : Net → Backend → ℕ → Bool → Answers
ask_blocks net be peers in_sync = nonzero (fetch_block net be "latest") λ latest hash.
    nonzero (fetch_block net be "safe") λ safe _.
      nonzero (fetch_block net be "finalized")
        λ finalized _. answers peers in_sync latest hash safe finalized

abbrev pub counted : Outcome ℕ → (ℕ → Answers) → Answers
counted err k = failed
counted crash k = panicked
counted (ok n) k = if n == 0 then zero_answer else k n

abbrev pub synced : Outcome Bool → (Bool → Answers) → Answers
synced err k = failed
synced crash k = panicked
synced (ok b) k = k b

unfoldable pub ask : Net → Backend → Answers
ask net be = synced (is_in_sync net be) λ in_sync.
    if be.skip_peer_count_check
    then ask_blocks net be 0 in_sync
    else counted (get_peer_count net be) λ peers. ask_blocks net be peers in_sync

-- The poller, the backend with its windows, and whether the process is still up.
pub record Updated : Type 0 where
  pub poller : ConsensusPoller
  pub backend : Backend
  pub alive : Bool

-- The state that the tags are compared with is the copy from before the write.
unfoldable pub record_answers : ConsensusPoller → ℕ → Backend → BackendState → Answers → Updated
record_answers cp now be old failed = record { poller = cp; backend = be; alive = true }
record_answers cp now be old panicked = record { poller = cp; backend = be; alive = false }
record_answers cp now be old zero_answer = record {
  poller = cp;
  backend = record be {
    intermittent_errors_sliding_window = incr be.intermittent_errors_sliding_window now;
  };
  alive = true;
}
record_answers cp now be old (answers peers in_sync latest hash safe finalized) =
    let written = (set_backend_state cp now be peers in_sync latest hash safe finalized).0 in
    let expected =
      check_expected_block_tags latest old.safe_block_number safe old.finalized_block_number
        finalized in
    record {
      poller = if not expected && not be.forced_candidate then ban written now be else written;
      backend = be;
      alive = true;
    }

unfoldable pub update_backend : Net → ConsensusPoller → ℕ → Backend → Updated
update_backend net cp now be =
    let bs = get_backend_state cp be in
    if is_banned bs now
    then record { poller = cp; backend = be; alive = true }
    else if not (is_healthy be now) && not be.forced_candidate
    then record { poller = ban cp now be; backend = be; alive = true }
    else record_answers cp now be bs (ask net be)

-- What an update has done when its first lock section on the state ends, and whether `Ban` follows in
-- a section of its own.
unfoldable pub write_answers :
    ConsensusPoller → ℕ → Backend → BackendState → Answers → ConsensusPoller × Bool
write_answers cp now be old failed = (cp, false)
write_answers cp now be old panicked = (cp, false)
write_answers cp now be old zero_answer = (cp, false)
write_answers cp now be old (answers peers in_sync latest hash safe finalized) = (
  (set_backend_state cp now be peers in_sync latest hash safe finalized).0,
  not (
        check_expected_block_tags latest old.safe_block_number safe old.finalized_block_number
          finalized)
      && not be.forced_candidate,
)

unfoldable pub start_update : Net → ConsensusPoller → ℕ → Backend → ConsensusPoller × Bool
start_update net cp now be =
    let bs = get_backend_state cp be in
    if is_banned bs now
    then (cp, false)
    else if not (is_healthy be now) && not be.forced_candidate
    then (ban cp now be, false)
    else write_answers cp now be bs (ask net be)

abbrev pub finish_update : ConsensusPoller × Bool → ℕ → Backend → ConsensusPoller
finish_update p now be = if p.1 then ban p.0 now be else p.0
