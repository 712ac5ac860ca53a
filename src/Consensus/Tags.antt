-- ===== src/Consensus/Tags.antt =====
-- What `UpdateBackend` keeps true of the state of a backend.
use bsc_builder_proxyd.Base.{
  inr, not, ◌&&◌, Bool-cases, ℕ, ◌+◌, ◌≤◌, ◌≡◌, ◌≢◌, refl, ◌⊎◌, inl, true, false, arith, ==_refl,
}
use bsc_builder_proxyd.Backend.{Backend, is_healthy}
use bsc_builder_proxyd.Consensus.{
  ConsensusPoller, BackendState, get_backend_state, ban, set_backend_state,
  check_expected_block_tags, is_banned,
}
use bsc_builder_proxyd.Consensus.Fetch.{Net}
use bsc_builder_proxyd.Consensus.Update.{
  Answers, answers, failed, zero_answer, panicked, ask, record_answers, update_backend,
  write_answers, start_update, finish_update,
}

abbrev pub IsOrdered : BackendState → Type 0
IsOrdered bs =
    (bs.finalized_block_number ≤ bs.safe_block_number)
    × (bs.safe_block_number ≤ bs.latest_block_number)

-- What an update may do to the tags of a backend: they do not fall, or the backend is banned from
-- `now` and starts anew.
abbrev pub Advances : ℕ → BackendState → BackendState → Type 0
Advances until old new =
    ((old.safe_block_number ≤ new.safe_block_number)
      × (old.finalized_block_number ≤ new.finalized_block_number))
    ⊎ ((new.banned_until ≡ until)
        × (new.latest_block_number ≡ 0)
        × (new.safe_block_number ≡ 0)
        × (new.finalized_block_number ≡ 0))

record_answers-IsOrdered :
    (cp : ConsensusPoller) (now : ℕ) (be : Backend) (a : Answers)
    → be.forced_candidate ≡ false
    → IsOrdered (get_backend_state cp be)
    → IsOrdered (get_backend_state (record_answers cp now be (get_backend_state cp be) a).poller be)
unfolding record_answers get_backend_state ban set_backend_state check_expected_block_tags
record_answers-IsOrdered cp now be failed free o = o
record_answers-IsOrdered cp now be panicked free o = o
record_answers-IsOrdered cp now be zero_answer free o = o
record_answers-IsOrdered cp now be (answers p s l h sf f) free o = ground (arith, ==_refl be.id)

-- For a backend that is not a forced candidate, an update keeps finalized <= safe <= latest in its
-- recorded state, whatever the backend answers.
pub update_backend-IsOrdered :
    (net : Net) (cp : ConsensusPoller) (now : ℕ) (be : Backend)
    → be.forced_candidate ≡ false
    → IsOrdered (get_backend_state cp be)
    → IsOrdered (get_backend_state (update_backend net cp now be).poller be)
unfolding update_backend get_backend_state ban
update_backend-IsOrdered net cp now be free o =
    ground (arith, ==_refl be.id, record_answers-IsOrdered cp now be (ask net be) free o)

record_answers-Advances :
    (cp : ConsensusPoller) (now : ℕ) (be : Backend) (a : Answers)
    → be.forced_candidate ≡ false
    → Advances
        (now + cp.ban_period)
        (get_backend_state cp be)
        (get_backend_state (record_answers cp now be (get_backend_state cp be) a).poller be)
unfolding record_answers get_backend_state ban set_backend_state check_expected_block_tags
record_answers-Advances cp now be failed free = inl (omega arith, omega arith)
record_answers-Advances cp now be panicked free = inl (omega arith, omega arith)
record_answers-Advances cp now be zero_answer free = inl (omega arith, omega arith)
record_answers-Advances cp now be (answers p s l h sf f) free = ground (arith, ==_refl be.id)

-- For a backend that is not a forced candidate, an update either leaves the safe and the finalized
-- block no lower than before, or bans the backend for the ban period and sets its blocks to 0.
pub update_backend-Advances :
    (net : Net) (cp : ConsensusPoller) (now : ℕ) (be : Backend)
    → be.forced_candidate ≡ false
    → Advances
        (now + cp.ban_period)
        (get_backend_state cp be)
        (get_backend_state (update_backend net cp now be).poller be)
unfolding update_backend get_backend_state ban
update_backend-Advances net cp now be free =
    ground (arith, ==_refl be.id, record_answers-Advances cp now be (ask net be) free)

-- What one poller has in common with another, at one backend.
abbrev pub Framed : ConsensusPoller → ConsensusPoller → ℕ → Type 0
Framed cp cq j =
    (cq.backend_state j ≡ cp.backend_state j)
    × (cq.tracker ≡ cp.tracker)
    × (cq.consensus_group ≡ cp.consensus_group)

record_answers_frame :
    (cp : ConsensusPoller) (now : ℕ) (be : Backend) (old : BackendState) (a : Answers) (j : ℕ)
    → be.id ≢ j
    → Framed cp (record_answers cp now be old a).poller j
unfolding record_answers ban set_backend_state check_expected_block_tags
record_answers_frame cp now be old failed j other = (refl, refl, refl)
record_answers_frame cp now be old panicked j other = (refl, refl, refl)
record_answers_frame cp now be old zero_answer j other = (refl, refl, refl)
record_answers_frame cp now be old (answers p s l h sf f) j other = ground arith

-- An update of one backend changes nothing in the recorded state of any other, nor the tracker, nor
-- the consensus group.
update_backend_frame :
    (net : Net) (cp : ConsensusPoller) (now : ℕ) (be : Backend) (j : ℕ)
    → be.id ≢ j
    → Framed cp (update_backend net cp now be).poller j
unfolding update_backend ban
update_backend_frame net cp now be j other =
    ground (arith, record_answers_frame cp now be (get_backend_state cp be) (ask net be) j other)

record_answers_unbanned :
    (cp : ConsensusPoller) (now : ℕ) (be : Backend) (old : BackendState) (a : Answers)
    → be.forced_candidate ≡ true
    → (get_backend_state (record_answers cp now be old a).poller be).banned_until
      ≡ (get_backend_state cp be).banned_until
unfolding record_answers get_backend_state ban set_backend_state check_expected_block_tags
record_answers_unbanned cp now be old failed forced = refl
record_answers_unbanned cp now be old panicked forced = refl
record_answers_unbanned cp now be old zero_answer forced = refl
record_answers_unbanned cp now be old (answers p s l h sf f) forced = ground (arith, ==_refl be.id)

-- An update never bans a forced candidate, be it unhealthy or answer it with falling block tags.
update_backend_unbanned :
    (net : Net) (cp : ConsensusPoller) (now : ℕ) (be : Backend)
    → be.forced_candidate ≡ true
    → (get_backend_state (update_backend net cp now be).poller be).banned_until
      ≡ (get_backend_state cp be).banned_until
unfolding update_backend ban
update_backend_unbanned net cp now be forced =
    ground (arith, record_answers_unbanned cp now be (get_backend_state cp be) (ask net be) forced)

record_answers-write_answers :
    (cp : ConsensusPoller) (now : ℕ) (be : Backend) (old : BackendState) (a : Answers)
    → (record_answers cp now be old a).poller ≡ finish_update (write_answers cp now be old a) now be
unfolding record_answers write_answers
record_answers-write_answers cp now be old failed = refl
record_answers-write_answers cp now be old panicked = refl
record_answers-write_answers cp now be old zero_answer = refl
record_answers-write_answers cp now be old (answers p s l h sf f) = refl

-- An update is its first section on the state and, if one is due, the ban.
update_backend-start_update :
    (net : Net) (cp : ConsensusPoller) (now : ℕ) (be : Backend)
    → (update_backend net cp now be).poller ≡ finish_update (start_update net cp now be) now be
unfolding update_backend start_update
update_backend-start_update net cp now be =
    elim (Bool-cases (is_banned (get_backend_state cp be) now)) [
      | inl x ↦ rw (x, update_backend, start_update) refl
      | inr x ↦ elim (Bool-cases (not (is_healthy be now) && not be.forced_candidate)) [
        | inl y ↦ rw (x, update_backend, start_update) (rw (y, update_backend, start_update) refl)
        | inr y ↦
            rw (x, update_backend, start_update)
              (rw (y, update_backend, start_update)
                (record_answers-write_answers cp now be (get_backend_state cp be) (ask net be)))
      ]
    ]
