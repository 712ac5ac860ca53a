-- ===== src/Consensus/Rounds.antt =====
-- consensus_poller.go, `PollerAsyncHandler.Init`: the goroutines that poll, as steps in any order. Only
-- the goroutine of a backend writes its state, in up to two sections under the lock of the state: the
-- answers, and then a ban. Between the two the others see what was written. A fallback is asked only
-- if no primary was a candidate when its goroutine looked, which may be long before its update, so it
-- may be updated here in any state. The windows of a backend belong to the backend itself, so a step
-- sees it with any windows.
use bsc_builder_proxyd.Base.{
  ℕ, Bool, true, false, List, [], ◌∷◌, String, some, ◌≡◌, ◌⊎◌, if◌then◌else◌, ◌==◌,
}
use bsc_builder_proxyd.Window.{AvgSlidingWindow}
use bsc_builder_proxyd.Backend.{Backend}
use bsc_builder_proxyd.Consensus.{
  BackendGroup, ConsensusPoller, ConsensusOpt, new_consensus_poller, ban,
}
use bsc_builder_proxyd.Consensus.Fetch.{Net}
use bsc_builder_proxyd.Consensus.Candidates.{Candidate}
use bsc_builder_proxyd.Consensus.Update.{start_update}
use bsc_builder_proxyd.Consensus.Group.{GroupUpdate, update_backend_group_consensus}

pub record Windows : Type 0 where
  pub latency : AvgSlidingWindow
  pub network_requests : AvgSlidingWindow
  pub intermittent_errors : AvgSlidingWindow

abbrev pub with_windows : Windows → Backend → Backend
with_windows w be = record be {
  latency_sliding_window = w.latency;
  network_requests_sliding_window = w.network_requests;
  intermittent_errors_sliding_window = w.intermittent_errors;
}

abbrev pub Among : Backend → List Backend → Type 0
Among b [] = ⊥
Among b (x ∷ xs) = (b ≡ x) ⊎ Among b xs

-- The poller, and the backends that are about to be banned after an update, by identity.
pub record Polling : Type 0 where
  pub poller : ConsensusPoller
  pub to_ban : ℕ → Bool

abbrev pub put_flag : (ℕ → Bool) → ℕ → Bool → ℕ → Bool
put_flag m i b j = if i == j then b else m j

abbrev pub after_write : Polling → Net → ℕ → Backend → Polling
after_write s net now be =
    let (cp, follows) = start_update net s.poller now be in
    record { poller = cp; to_ban = put_flag s.to_ban be.id follows }

abbrev pub after_ban : Polling → ℕ → Backend → Polling
after_ban s now be = record { poller = ban s.poller now be; to_ban = put_flag s.to_ban be.id false }

-- One turn of one of the goroutines.
pub data Round (s : Polling) : Polling → Type 0 where
  write :
      (net : Net) (now : ℕ) (be : Backend) (w : Windows)
      → Among be s.poller.backend_group.backends
      → s.to_ban be.id ≡ false
      → Round s (after_write s net now (with_windows w be))
  ban_late :
      (now : ℕ) (be : Backend) (w : Windows)
      → Among be s.poller.backend_group.backends
      → s.to_ban be.id ≡ true
      → Round s (after_ban s now (with_windows w be))
  group :
      (nets : ℕ → Net) (encode : ℕ → String) (order : List Candidate → ℕ → List Candidate)
      (fuel now : ℕ) (u : GroupUpdate)
      → update_backend_group_consensus nets encode order fuel s.poller now ≡ some u
      → Round s (record s { poller = u.poller })

unfoldable pub new_polling : BackendGroup → List ConsensusOpt → Polling
new_polling bg opts = record { poller = new_consensus_poller bg opts; to_ban = λ j. false }

-- What comes of any number of turns from a new poller.
pub data Reached (bg : BackendGroup) (opts : List ConsensusOpt) : Polling → Type 0 where
  start : Reached bg opts (new_polling bg opts)
  later : {s t : Polling} → Reached bg opts s → Round s t → Reached bg opts t
