-- ===== src/Tracker/Shared.antt =====
-- consensus_tracker.go: several trackers that share one namespace of Redis, between two heartbeats.
use bsc_builder_proxyd.Base.{ℕ, ◌≡◌, true, String, some}
use bsc_builder_proxyd.Tracker.{RedisConsensusTracker, Redis, mutex_key}

-- The mutex is empty while nobody holds the lock.
pub record System : Type 0 where
  pub mutex : String
  pub trackers : ℕ → RedisConsensusTracker

-- What Redis and redsync answer to a tracker during a heartbeat in which nobody else takes or loses the
-- lock: the mutex reads as it is, and only the holder extends or releases the lock. Each of them
-- may fail at any time.
pub record Answers (s : System) (i : ℕ) (rs : Redis) : Type 0 where
  pub reads : (val : String) → rs.get mutex_key ≡ some val → val ≡ s.mutex
  pub extends : rs.extend ≡ true → (s.trackers i).redlock ≡ some s.mutex
  pub releases : rs.unlock ≡ true → (s.trackers i).redlock ≡ some s.mutex
