-- ===== src/Tracker.antt =====
-- consensus_tracker.go: the tracker in memory, and the one that shares its state through Redis under
-- a lock. Redis, redsync and `encoding/json` are the parameter `Redis`: what they answer during one
-- heartbeat. Keys and values are texts.
pub mod Election
pub mod Commands
pub mod Shared
pub mod Stale
use bsc_builder_proxyd.Base.{
  ℕ, ◌*◌, Bool, true, false, ◌&&◌, ◌||◌, not, Option, none, some, String, if◌then◌else◌, ltb, eqb,
  string_eq, List, [], ◌∷◌,
}
use bsc_builder_proxyd.Consensus.{TrackerState}
use bsc_builder_proxyd.Window.{second}

unfoldable pub new_in_memory_tracker : TrackerState
new_in_memory_tracker = record { latest = 0; safe = 0; finalized = 0 }

unfoldable pub valid : TrackerState → Bool
valid ct = ltb 0 ct.latest && (ltb 0 ct.safe && ltb 0 ct.finalized)

unfoldable pub behind : TrackerState → TrackerState → Bool
behind ct other =
    ltb ct.latest other.latest || (ltb ct.safe other.safe || ltb ct.finalized other.finalized)

unfoldable pub set_latest_block_number : TrackerState → ℕ → TrackerState
set_latest_block_number ct n = record ct { latest = n }

unfoldable pub set_safe_block_number : TrackerState → ℕ → TrackerState
set_safe_block_number ct n = record ct { safe = n }

unfoldable pub set_finalized_block_number : TrackerState → ℕ → TrackerState
set_finalized_block_number ct n = record ct { finalized = n }

-- The lock that the tracker holds is its value.
pub record RedisConsensusTracker : Type 0 where
  pub lock_period : ℕ
  pub heartbeat_interval : ℕ
  pub redlock : Option String
  pub leader : Bool
  pub leader_name : String
  pub local_state : TrackerState
  pub remote_state : TrackerState

unfoldable pub new_redis_tracker : RedisConsensusTracker
new_redis_tracker = record {
  lock_period = 30 * second;
  heartbeat_interval = 2 * second;
  redlock = none;
  leader = false;
  leader_name = "";
  local_state = new_in_memory_tracker;
  remote_state = new_in_memory_tracker;
}

-- Reads give the remote state, writes go to the local one.
unfoldable pub redis_get : RedisConsensusTracker → TrackerState
redis_get ct = ct.remote_state

unfoldable pub redis_set_latest : RedisConsensusTracker → ℕ → RedisConsensusTracker
redis_set_latest ct n = record ct { local_state = set_latest_block_number ct.local_state n }

unfoldable pub redis_set_safe : RedisConsensusTracker → ℕ → RedisConsensusTracker
redis_set_safe ct n = record ct { local_state = set_safe_block_number ct.local_state n }

unfoldable pub redis_set_finalized : RedisConsensusTracker → ℕ → RedisConsensusTracker
redis_set_finalized ct n = record ct { local_state = set_finalized_block_number ct.local_state n }

-- A key of the tracker's namespace; a missing key reads as the empty text.
pub data Key : Type 0 where
  mutex_key : Key
  leader_key : String → Key
  state_key : String → Key

pub record Redis : Type 0 where
  pub get : Key → Option String
  pub unlock : Bool
  pub extend : Bool
  pub lock : Option String
  pub set : Key → String → Bool
  pub marshal : TrackerState → Option String
  pub unmarshal : String → Option TrackerState
  pub hostname : String

abbrev resign : RedisConsensusTracker → RedisConsensusTracker
resign ct = record ct { leader = false }

-- `postPayload`: a step that fails gives up the lead.
unfoldable pub post_payload : Redis → RedisConsensusTracker → String → RedisConsensusTracker
post_payload rs ct mutex_val = elim (rs.marshal ct.local_state) [
  | none ↦ resign ct
  | some json_state ↦
      if not (rs.set (state_key mutex_val) json_state)
      then resign ct
      else if not (rs.set (leader_key mutex_val) rs.hostname)
      then resign ct
      else record ct { leader_name = rs.hostname; remote_state = ct.local_state }
]

-- The lock cannot be read.
unfoldable pub on_read_error : Redis → RedisConsensusTracker → RedisConsensusTracker
on_read_error rs ct = if ct.leader then (if rs.unlock then resign ct else ct) else ct

unfoldable pub on_leading : Redis → RedisConsensusTracker → String → RedisConsensusTracker
on_leading rs ct val =
    if rs.extend then post_payload rs ct val else if rs.unlock then resign ct else ct

-- The remote state under a lock's value, once the leader's name is known.
unfoldable pub read_state : Redis → RedisConsensusTracker → Option String → RedisConsensusTracker
read_state rs ct none = ct
read_state rs ct (some val) =
    if eqb val ""
    then ct
    else elim (rs.unmarshal val) [ none ↦ ct | some state ↦ record ct { remote_state = state } ]

unfoldable pub on_following : Redis → RedisConsensusTracker → String → RedisConsensusTracker
on_following rs ct val = elim (rs.get (leader_key val)) [
  | none ↦ ct
  | some name ↦ read_state rs (record ct { leader_name = name }) (rs.get (state_key val))
]

unfoldable pub on_no_lock : Redis → RedisConsensusTracker → RedisConsensusTracker
on_no_lock rs ct =
    if not (valid ct.local_state)
    then ct
    else if valid ct.remote_state && behind ct.local_state ct.remote_state
    then ct
    else elim rs.lock [
      | none ↦ resign ct
      | some val ↦ post_payload rs (record ct { redlock = some val; leader = true }) val
    ]

unfoldable pub state_heartbeat : Redis → RedisConsensusTracker → RedisConsensusTracker
state_heartbeat rs ct = elim (rs.get mutex_key) [
  | none ↦ on_read_error rs ct
  | some val ↦
      if not (eqb val "")
      then (if ct.leader then on_leading rs ct val else on_following rs ct val)
      else on_no_lock rs ct
]
