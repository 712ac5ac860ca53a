-- ===== src/Consensus.antt =====
-- consensus_poller.go: the state of the poller and the small operations on it. Mutexes only make
-- each operation one step, so they do not show. `time.Now()` is an argument. Block numbers and peer
-- counts are uint64.
pub mod Fetch
pub mod Update
pub mod Candidates
pub mod Group
pub mod Tags
pub mod Eligible
pub mod Lowest
pub mod Agreement
pub mod Descent
pub mod Rounds
pub mod Reachable
use bsc_builder_proxyd.Base.{
  ℕ, ◌+◌, ◌-◌, ◌*◌, Bool, true, false, ◌&&◌, List, [], ◌∷◌, String, Option, none, some, not, ltb,
  leb, ◌==◌, if◌then◌else◌, lookup, string_eq, eqb, filter, is_some,
}
use bsc_builder_proxyd.Backend.{Backend}
use bsc_builder_proxyd.Window.{second}

pub record BackendState : Type 0 where
  pub latest_block_number : ℕ
  pub latest_block_hash : String
  pub safe_block_number : ℕ
  pub finalized_block_number : ℕ
  pub peer_count : ℕ
  pub in_sync : Bool
  pub last_update : ℕ
  pub banned_until : ℕ

-- `&backendState{}`; Go's zero time is 0.
unfoldable pub zero_state : BackendState
zero_state = record {
  latest_block_number = 0;
  latest_block_hash = "";
  safe_block_number = 0;
  finalized_block_number = 0;
  peer_count = 0;
  in_sync = false;
  last_update = 0;
  banned_until = 0;
}

unfoldable pub is_banned : BackendState → ℕ → Bool
is_banned bs now = ltb now bs.banned_until

pub record BackendGroup : Type 0 where
  pub name : String
  pub backends : List Backend
  pub weighted_routing : Bool
  pub fallback_backends : List (String × Bool)
  pub multicall_rpc_error_check : Bool

-- The map's value of a backend, and whether it has one.
unfoldable pub is_fallback : BackendGroup → Backend → Bool
is_fallback bg be = elim (lookup be.name bg.fallback_backends) [ none ↦ false | some f ↦ f ]

unfoldable pub is_primary : BackendGroup → Backend → Bool
is_primary bg be = elim (lookup be.name bg.fallback_backends) [ none ↦ false | some f ↦ not f ]

unfoldable pub fallbacks : BackendGroup → List Backend
fallbacks bg = filter (is_fallback bg) bg.backends

unfoldable pub primaries : BackendGroup → List Backend
primaries bg = filter (is_primary bg) bg.backends

-- `ConsensusTrackerState`.
pub record TrackerState : Type 0 where
  pub latest : ℕ
  pub safe : ℕ
  pub finalized : ℕ

-- The poller's map of states is a function of the backend's identity; `Reset` enters every backend
-- of the group before the first use. Listeners are named by numbers.
pub record ConsensusPoller : Type 0 where
  pub listeners : List ℕ
  pub backend_group : BackendGroup
  pub backend_state : ℕ → BackendState
  pub consensus_group : List Backend
  pub tracker : TrackerState
  pub min_peer_count : ℕ
  pub ban_period : ℕ
  pub max_update_threshold : ℕ
  pub max_block_lag : ℕ
  pub max_block_range : ℕ
  pub interval : ℕ

abbrev pub put_state : (ℕ → BackendState) → ℕ → BackendState → ℕ → BackendState
put_state m id bs j = if id == j then bs else m j

unfoldable pub reset_states : List Backend → (ℕ → BackendState) → ℕ → BackendState
reset_states [] m = m
reset_states (be ∷ bes) m = reset_states bes (put_state m be.id zero_state)

unfoldable pub reset : ConsensusPoller → ConsensusPoller
reset cp = record cp { backend_state = reset_states cp.backend_group.backends cp.backend_state }

pub data ConsensusOpt : Type 0 where
  with_listener : ℕ → ConsensusOpt
  with_ban_period : ℕ → ConsensusOpt
  with_max_update_threshold : ℕ → ConsensusOpt
  with_max_block_lag : ℕ → ConsensusOpt
  with_max_block_range : ℕ → ConsensusOpt
  with_min_peer_count : ℕ → ConsensusOpt
  with_poller_interval : ℕ → ConsensusOpt

append_listener : List ℕ → ℕ → List ℕ
append_listener [] l = l ∷ []
append_listener (x ∷ xs) l = x ∷ append_listener xs l

unfoldable pub add_listener : ConsensusPoller → ℕ → ConsensusPoller
unfolding append_listener
add_listener cp l = record cp { listeners = append_listener cp.listeners l }

unfoldable pub clear_listeners : ConsensusPoller → ConsensusPoller
clear_listeners cp = record cp { listeners = [] }

unfoldable pub apply_opt : ConsensusOpt → ConsensusPoller → ConsensusPoller
apply_opt (with_listener l) cp = add_listener cp l
apply_opt (with_ban_period t) cp = record cp { ban_period = t }
apply_opt (with_max_update_threshold t) cp = record cp { max_update_threshold = t }
apply_opt (with_max_block_lag n) cp = record cp { max_block_lag = n }
apply_opt (with_max_block_range n) cp = record cp { max_block_range = n }
apply_opt (with_min_peer_count n) cp = record cp { min_peer_count = n }
apply_opt (with_poller_interval t) cp = record cp { interval = t }

unfoldable pub apply_opts : List ConsensusOpt → ConsensusPoller → ConsensusPoller
apply_opts [] cp = cp
apply_opts (o ∷ os) cp = apply_opts os (apply_opt o cp)

-- `NewConsensusPoller` up to the start of the handler.
unfoldable pub new_consensus_poller : BackendGroup → List ConsensusOpt → ConsensusPoller
new_consensus_poller bg opts = reset (
    apply_opts opts (record {
      listeners = [];
      backend_group = bg;
      backend_state = λ id. zero_state;
      consensus_group = [];
      tracker = record { latest = 0; safe = 0; finalized = 0 };
      min_peer_count = 3;
      ban_period = 300 * second;
      max_update_threshold = 30 * second;
      max_block_lag = 8;
      max_block_range = 0;
      interval = second;
    }))

unfoldable pub get_backend_state : ConsensusPoller → Backend → BackendState
get_backend_state cp be = cp.backend_state be.id

-- `Ban`: a forced candidate is never banned; the block numbers start anew.
unfoldable pub ban : ConsensusPoller → ℕ → Backend → ConsensusPoller
ban cp now be = if be.forced_candidate then cp else record cp {
  backend_state = put_state cp.backend_state be.id (record (cp.backend_state be.id) {
    banned_until = now + cp.ban_period;
    latest_block_number = 0;
    safe_block_number = 0;
    finalized_block_number = 0;
  });
}

unfoldable pub unban : ConsensusPoller → ℕ → Backend → ConsensusPoller
unban cp now be = record cp {
  backend_state =
      put_state cp.backend_state be.id
        (record (cp.backend_state be.id) { banned_until = now - 36000 * second });
}

-- The new state and whether the latest hash changed.
unfoldable pub set_backend_state :
    ConsensusPoller → ℕ → Backend → ℕ → Bool → ℕ → String → ℕ → ℕ → ConsensusPoller × Bool
set_backend_state cp now be peers in_sync latest hash safe finalized = (
  record cp {
    backend_state = put_state cp.backend_state be.id (record (cp.backend_state be.id) {
      peer_count = peers;
      in_sync = in_sync;
      latest_block_number = latest;
      latest_block_hash = hash;
      finalized_block_number = finalized;
      safe_block_number = safe;
      last_update = now;
    });
  },
  not (eqb (cp.backend_state be.id).latest_block_hash hash),
)

-- Finalized and safe never fall, and finalized <= safe <= latest.
unfoldable pub check_expected_block_tags : ℕ → ℕ → ℕ → ℕ → ℕ → Bool
check_expected_block_tags current_latest old_safe current_safe old_finalized current_finalized =
    leb old_finalized current_finalized
    && (leb old_safe current_safe
        && (leb current_finalized current_safe && leb current_safe current_latest))
