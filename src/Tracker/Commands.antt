-- ===== src/Tracker/Commands.antt =====
-- consensus_tracker.go: what a heartbeat writes to Redis. The commands are those that Redis has
-- carried out, in order; a refused one is left out.
use bsc_builder_proxyd.Base.{
  ◌&&◌, not, List, [], ◌∷◌, String, none, some, if◌then◌else◌, eqb, string_eq,
}
use bsc_builder_proxyd.Tracker.{
  RedisConsensusTracker, Redis, Key, mutex_key, leader_key, state_key, valid, behind,
}

-- The mutex gets a value of its own when it is taken.
pub data Command : Type 0 where
  take_lock : String → Command
  release_lock : Command
  put : Key → String → Command

unfoldable pub post_commands : Redis → RedisConsensusTracker → String → List Command
post_commands rs ct mutex_val = elim (rs.marshal ct.local_state) [
  | none ↦ []
  | some json_state ↦
      if not (rs.set (state_key mutex_val) json_state)
      then []
      else if not (rs.set (leader_key mutex_val) rs.hostname)
      then put (state_key mutex_val) json_state ∷ []
      else put (state_key mutex_val) json_state ∷ put (leader_key mutex_val) rs.hostname ∷ []
]

abbrev pub released : Redis → List Command
released rs = if rs.unlock then release_lock ∷ [] else []

unfoldable pub leading_commands : Redis → RedisConsensusTracker → String → List Command
leading_commands rs ct val = if rs.extend then post_commands rs ct val else released rs

unfoldable pub no_lock_commands : Redis → RedisConsensusTracker → List Command
no_lock_commands rs ct =
    if not (valid ct.local_state)
    then []
    else if valid ct.remote_state && behind ct.local_state ct.remote_state
    then []
    else elim rs.lock [ none ↦ [] | some val ↦ take_lock val ∷ post_commands rs ct val ]

-- A tracker that follows only reads.
unfoldable pub heartbeat_commands : Redis → RedisConsensusTracker → List Command
heartbeat_commands rs ct = elim (rs.get mutex_key) [
  | none ↦ if ct.leader then released rs else []
  | some val ↦
      if not (eqb val "")
      then (if ct.leader then leading_commands rs ct val else [])
      else no_lock_commands rs ct
]
