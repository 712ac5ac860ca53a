-- ===== src/Tests/Trackers.antt =====
-- A tracker that leads while another one holds the lock.
use bsc_builder_proxyd.Base.{
  ◌≡◌, true, false, [], Option, none, some, String, ap, some_inj, sym, refl, eqb, string_eq,
}
use bsc_builder_proxyd.Consensus.{TrackerState}
use bsc_builder_proxyd.Tracker.{
  Redis, RedisConsensusTracker, Key, mutex_key, leader_key, state_key, state_heartbeat,
  new_redis_tracker,
}
use bsc_builder_proxyd.Tracker.Commands.{heartbeat_commands}
use bsc_builder_proxyd.Tracker.Shared.{System, Answers}
use bsc_builder_proxyd.Tracker.Stale.{stale_leader}

abbrev view : TrackerState
view = record { latest = 9; safe = 8; finalized = 7 }

abbrev read_key : Key → Option String
read_key mutex_key = some "lock2"
read_key (leader_key v) = some "node"
read_key (state_key v) = some "state"

-- Redis with the lock of the second tracker; it is neither extended nor released nor given again.
abbrev redis : Redis
redis = record {
  get = read_key;
  unlock = false;
  extend = false;
  lock = none;
  set = λ k v. true;
  marshal = λ s. some "state";
  unmarshal = λ s. some view;
  hostname = "node";
}

-- The first tracker leads with its old lock.
abbrev leading : RedisConsensusTracker
leading = record new_redis_tracker {
  redlock = some "lock1";
  leader = true;
  local_state = view;
  remote_state = view;
}

abbrev second_holds : System
second_holds = record { mutex = "lock2"; trackers = λ i. leading }

refused_first : Answers second_holds 0 redis
refused_first = record {
  reads = λ val h. some_inj (sym h);
  extends = λ h. absurd (cc h);
  releases = λ h. absurd (cc h);
}

stale_leader_example :
    (heartbeat_commands redis leading ≡ []) × (state_heartbeat redis leading ≡ leading)
stale_leader_example =
    stale_leader second_holds 0 redis refused_first refl
      (λ h. let e : false ≡ true = ap (λ v. eqb v "") h in absurd (cc e))
      (λ h. let e : false ≡ true = ap (λ v. eqb v "lock2") (some_inj h) in absurd (cc e))
