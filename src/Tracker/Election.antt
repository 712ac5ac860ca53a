-- ===== src/Tracker/Election.antt =====
-- What a heartbeat may do to the shared view of the consensus.
use bsc_builder_proxyd.Base.{
  ◌≤◌, ◌≡◌, refl, ◌⊎◌, inl, inr, true, false, Option, none, some, String, arith, eqb, string_eq,
  Option-cases, Bool-cases, ◌∙◌, subst, sym,
}
use bsc_builder_proxyd.Tracker.{
  RedisConsensusTracker, Redis, mutex_key, leader_key, state_key, valid, behind, post_payload,
  on_read_error, on_leading, read_state, on_following, on_no_lock, state_heartbeat,
}

-- The shared view stays, becomes the local one of a leader, or is read from under the lock by a
-- follower.
abbrev pub Published : Redis → RedisConsensusTracker → RedisConsensusTracker → Type 0
Published rs ct ct' =
    (ct'.remote_state ≡ ct.remote_state)
    ⊎ ((ct'.remote_state ≡ ct.local_state) × (ct'.leader ≡ true))
    ⊎ ((val : String) × (s : String) × (rs.get mutex_key ≡ some val)
        × (rs.get (state_key val) ≡ some s)
        × (rs.unmarshal s ≡ some ct'.remote_state)
        × (ct'.leader ≡ false))

post_payload-Published :
    (rs : Redis) (ct : RedisConsensusTracker) (val : String)
    → ct.leader ≡ true
    → ((post_payload rs ct val).remote_state ≡ ct.remote_state)
      ⊎ (((post_payload rs ct val).remote_state ≡ ct.local_state)
          × ((post_payload rs ct val).leader ≡ true))
unfolding post_payload
post_payload-Published rs ct val h = ground arith

read_state-Published :
    (rs : Redis) (ct : RedisConsensusTracker) (o : Option String)
    → ((read_state rs ct o).leader ≡ ct.leader)
      × (((read_state rs ct o).remote_state ≡ ct.remote_state)
          ⊎ ((s : String) × (o ≡ some s)
              × (rs.unmarshal s ≡ some (read_state rs ct o).remote_state)))
unfolding read_state
read_state-Published rs ct none = (refl, inl refl)
read_state-Published rs ct (some val) = elim (Bool-cases (eqb val "")) [
  | inl e ↦ rw e (refl, inl refl)
  | inr e ↦ elim (Option-cases (rs.unmarshal val)) [
    | inl x ↦ rw (e, x) (refl, inl refl)
    | inr (state, x) ↦ rw (e, x) (refl, inr (val, refl, x))
  ]
]

on_following-Published :
    (rs : Redis) (ct : RedisConsensusTracker) (val : String)
    → rs.get mutex_key ≡ some val
    → ct.leader ≡ false
    → Published rs ct (on_following rs ct val)
unfolding on_following
on_following-Published rs ct val e follows = elim (Option-cases (rs.get (leader_key val))) [
  | inl x ↦ rw (x, on_following) (inl refl)
  | inr (name, x) ↦
      rw (x, on_following)
        (let (l, r) =
            read_state-Published rs (record ct { leader_name = name }) (rs.get (state_key val)) in
          elim r [ inl same ↦ inl same | inr (s, y, z) ↦ inr (inr (val, s, e, y, z, l ∙ follows)) ])
]

of_post :
    (rs : Redis) (ct ct' : RedisConsensusTracker)
    → (ct'.remote_state ≡ ct.remote_state)
      ⊎ ((ct'.remote_state ≡ ct.local_state) × (ct'.leader ≡ true))
    → Published rs ct ct'
of_post rs ct ct' (inl h) = inl h
of_post rs ct ct' (inr h) = inr (inl h)

own_or_kept :
    (rs : Redis) (ct : RedisConsensusTracker) (val : String)
    → ct.leader ≡ true
    → Published rs ct (on_leading rs ct val)
unfolding on_leading
own_or_kept rs ct val h =
    of_post rs ct (on_leading rs ct val) (ground (arith, post_payload-Published rs ct val))

no_lock-Published : (rs : Redis) (ct : RedisConsensusTracker) → Published rs ct (on_no_lock rs ct)
unfolding on_no_lock post_payload
no_lock-Published rs ct = of_post rs ct (on_no_lock rs ct) (ground arith)

read_error-Published :
    (rs : Redis) (ct : RedisConsensusTracker) → Published rs ct (on_read_error rs ct)
unfolding on_read_error
read_error-Published rs ct = inl (ground arith)

of_eq :
    (rs : Redis) (ct a b : RedisConsensusTracker) → a ≡ b → Published rs ct b → Published rs ct a
of_eq rs ct a b e h = subst (Published rs ct) (sym e) h

-- A heartbeat changes the shared view only to the local state of a tracker that leads afterwards,
-- or, for a follower, to the state stored under the lock's value.
pub state_heartbeat-Published :
    (rs : Redis) (ct : RedisConsensusTracker) → Published rs ct (state_heartbeat rs ct)
unfolding state_heartbeat
state_heartbeat-Published rs ct = elim (Option-cases (rs.get mutex_key)) [
  | inl x ↦
      of_eq rs ct (state_heartbeat rs ct) (on_read_error rs ct) (ground (arith, x))
        (read_error-Published rs ct)
  | inr (val, x) ↦ elim (Bool-cases (eqb val "")) [
    | inl e ↦
        of_eq rs ct (state_heartbeat rs ct) (on_no_lock rs ct) (ground (arith, x, e))
          (no_lock-Published rs ct)
    | inr e ↦ elim (Bool-cases ct.leader) [
      | inl l ↦
          of_eq rs ct (state_heartbeat rs ct) (on_leading rs ct val) (ground (arith, x, e, l))
            (own_or_kept rs ct val l)
      | inr l ↦
          of_eq rs ct (state_heartbeat rs ct) (on_following rs ct val) (ground (arith, x, e, l))
            (on_following-Published rs ct val x l)
    ]
  ]
]

-- While nobody holds the lock, a heartbeat never takes a valid shared view back: its latest, safe
-- and finalized blocks are at least what they were.
pub state_heartbeat_forward :
    (rs : Redis) (ct : RedisConsensusTracker)
    → rs.get mutex_key ≡ some ""
    → valid ct.remote_state ≡ true
    → (ct.remote_state.latest ≤ (state_heartbeat rs ct).remote_state.latest)
      × (ct.remote_state.safe ≤ (state_heartbeat rs ct).remote_state.safe)
      × (ct.remote_state.finalized ≤ (state_heartbeat rs ct).remote_state.finalized)
unfolding state_heartbeat on_no_lock post_payload behind
state_heartbeat_forward rs ct free ok_remote = ground arith
