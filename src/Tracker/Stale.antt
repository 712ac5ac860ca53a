-- ===== src/Tracker/Stale.antt =====
-- consensus_tracker.go: a leader that has lost the lock to another tracker.
use bsc_builder_proxyd.Base.{
  ◌≡◌, ◌≢◌, sym, ◌∙◌, true, false, inl, inr, [], some, arith, eqb, string_eq, Bool-cases,
  Option-cases, ℕ,
}
use bsc_builder_proxyd.Tracker.{Redis, mutex_key, on_read_error, on_leading, state_heartbeat}
use bsc_builder_proxyd.Tracker.Commands.{leading_commands, heartbeat_commands}
use bsc_builder_proxyd.Tracker.Shared.{System, Answers}

-- A tracker that leads while the lock has a value other than its own puts nothing in a heartbeat and stays as
-- it is, whatever Redis answers: it keeps the lead and does not take the state that the new holder
-- has put.
pub stale_leader :
    (s : System) (i : ℕ) (rs : Redis)
    → Answers s i rs
    → (s.trackers i).leader ≡ true
    → s.mutex ≢ ""
    → (s.trackers i).redlock ≢ some s.mutex
    → (heartbeat_commands rs (s.trackers i) ≡ [])
      × (state_heartbeat rs (s.trackers i) ≡ s.trackers i)
unfolding heartbeat_commands state_heartbeat on_read_error on_leading leading_commands
stale_leader s i rs answers leads held other = elim (Option-cases (rs.get mutex_key)) [
  | inl x ↦ (ground (arith, x, leads, kept), ground (arith, x, leads, kept))
  | inr (val, x) ↦ elim (Bool-cases (eqb val "")) [
    | inl y ↦ absurd (held (sym (answers.reads val x) ∙ (string_eq.beq_iff val "").0 y))
    | inr y ↦
        (ground (arith, x, y, leads, kept, refused), ground (arith, x, y, leads, kept, refused))
  ]
]
  where
    kept : rs.unlock ≡ false
    kept = elim (Bool-cases rs.unlock) [ inl u ↦ absurd (other (answers.releases u)) | inr u ↦ u ]

    refused : rs.extend ≡ false
    refused = elim (Bool-cases rs.extend) [ inl u ↦ absurd (other (answers.extends u)) | inr u ↦ u ]
