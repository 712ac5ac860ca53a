-- ===== src/Consensus/Reachable.antt =====
-- What holds of a poller whenever its goroutines have run.
use bsc_builder_proxyd.Base.{
  not, ◌&&◌, ◌==◌, ==_refl, ==_iff, ◌≢◌, ℕ, some_inj, ◌≡◌, refl, sym, ◌∙◌, subst, ◌⊎◌, inl, inr,
  Bool, false, List, [], ◌∷◌, String, some, arith, filter, Bool-cases, ltb,
}
use bsc_builder_proxyd.Backend.{Backend, is_healthy}
use bsc_builder_proxyd.Consensus.{
  BackendGroup, ConsensusPoller, ConsensusOpt, BackendState, new_consensus_poller, primaries,
  fallbacks, apply_opts, apply_opt, reset, reset_states, zero_state, get_backend_state, ban,
  set_backend_state, is_banned, check_expected_block_tags,
}
use bsc_builder_proxyd.Consensus.Fetch.{Net}
use bsc_builder_proxyd.Consensus.Candidates.{Candidate, get_consensus_candidates}
use bsc_builder_proxyd.Consensus.Update.{
  write_answers, start_update, Answers, answers, failed, zero_answer, panicked, ask,
}
use bsc_builder_proxyd.Consensus.Group.{
  GroupUpdate, update_backend_group_consensus, publish, publish_found, lowest_from, no_lowest,
  settle, Search, found, out_of_fuel, member, Lowest,
}
use bsc_builder_proxyd.Consensus
use bsc_builder_proxyd.Consensus.Group as Group
use bsc_builder_proxyd.Consensus.Tags.{IsOrdered}
use bsc_builder_proxyd.Consensus.Rounds.{
  with_windows, Among, Polling, put_flag, Round, write, ban_late, group, new_polling, Reached,
  start, later,
}

-- No backend of the group with this identity is a forced candidate.
abbrev pub Unforced : BackendGroup → ℕ → Type 0
Unforced bg j = (b : Backend) → Among b bg.backends → b.id ≡ j → b.forced_candidate ≡ false

-- The blocks of every backend that is no forced candidate and that is not about to be banned are in
-- order, and the consensus group is made of backends of the group.
pub record IsSound (bg : BackendGroup) (s : Polling) : Type 0 where
  pub same_group : s.poller.backend_group ≡ bg
  pub ordered : (j : ℕ) → Unforced bg j → s.to_ban j ≡ false → IsOrdered (s.poller.backend_state j)
  pub within : (b : Backend) → Among b s.poller.consensus_group → Among b bg.backends

Among-filter :
    (p : Backend → Bool) (b : Backend) (xs : List Backend) → Among b (filter p xs) → Among b xs
Among-filter p b [] h = h
Among-filter p b (x ∷ xs) h = elim (Bool-cases (p x)) [
  | inl e ↦ elim (let h' : (b ≡ x) ⊎ Among b (filter p xs) = rw e at h in h') [
    | inl y ↦ inl y
    | inr y ↦ inr (Among-filter p b xs y)
  ]
  | inr e ↦ inr (Among-filter p b xs (rw e at h))
]

-- What a step at one backend leaves: the group, the consensus group and the other states.
Kept : ConsensusPoller → ConsensusPoller → Backend → Type 0
Kept cp cq be =
    (cq.backend_group ≡ cp.backend_group)
    × (cq.consensus_group ≡ cp.consensus_group)
    × ((j : ℕ) → be.id ≢ j → cq.backend_state j ≡ cp.backend_state j)

ban-Kept : (cp : ConsensusPoller) (now : ℕ) (be : Backend) → Kept cp (ban cp now be) be
unfolding ban Kept
ban-Kept cp now be = (ground arith, ground arith, λ j other. ground arith)

write_answers-Kept :
    (cp : ConsensusPoller) (now : ℕ) (be : Backend) (old : BackendState) (a : Answers)
    → Kept cp (write_answers cp now be old a).0 be
unfolding write_answers set_backend_state Kept
write_answers-Kept cp now be old failed = (refl, refl, λ j other. refl)
write_answers-Kept cp now be old panicked = (refl, refl, λ j other. refl)
write_answers-Kept cp now be old zero_answer = (refl, refl, λ j other. refl)
write_answers-Kept cp now be old (answers p s l h sf f) = (refl, refl, λ j other. ground arith)

Kept-same : (cp : ConsensusPoller) (be : Backend) → Kept cp cp be
unfolding Kept
Kept-same cp be = (refl, refl, λ j other. refl)

start_update-Kept :
    (net : Net) (cp : ConsensusPoller) (now : ℕ) (be : Backend)
    → Kept cp (start_update net cp now be).0 be
unfolding start_update
start_update-Kept net cp now be = elim (Bool-cases (is_banned (get_backend_state cp be) now)) [
  | inl x ↦ rw (x, start_update) (Kept-same cp be)
  | inr x ↦ elim (Bool-cases (not (is_healthy be now) && not be.forced_candidate)) [
    | inl y ↦ rw (x, start_update) (rw (y, start_update) (ban-Kept cp now be))
    | inr y ↦
        rw (x, start_update)
          (rw (y, start_update)
            (write_answers-Kept cp now be (get_backend_state cp be) (ask net be)))
  ]
]

write_answers-IsOrdered :
    (cp : ConsensusPoller) (now : ℕ) (be : Backend) (a : Answers)
    → be.forced_candidate ≡ false
    → IsOrdered (get_backend_state cp be)
    → (write_answers cp now be (get_backend_state cp be) a).1 ≡ false
    → IsOrdered (get_backend_state (write_answers cp now be (get_backend_state cp be) a).0 be)
unfolding write_answers get_backend_state set_backend_state check_expected_block_tags
write_answers-IsOrdered cp now be failed free o last = o
write_answers-IsOrdered cp now be panicked free o last = o
write_answers-IsOrdered cp now be zero_answer free o last = o
write_answers-IsOrdered cp now be (answers p s l h sf f) free o last =
    ground (arith, ==_refl be.id, free, last)

ban-IsOrdered :
    (cp : ConsensusPoller) (now : ℕ) (be : Backend)
    → be.forced_candidate ≡ false
    → IsOrdered (get_backend_state (ban cp now be) be)
unfolding ban get_backend_state
ban-IsOrdered cp now be free = ground (arith, ==_refl be.id, free)

-- If no ban follows, the blocks of the backend are in order as they were.
start_update-IsOrdered :
    (net : Net) (cp : ConsensusPoller) (now : ℕ) (be : Backend)
    → be.forced_candidate ≡ false
    → IsOrdered (get_backend_state cp be)
    → (start_update net cp now be).1 ≡ false
    → IsOrdered (get_backend_state (start_update net cp now be).0 be)
unfolding start_update
start_update-IsOrdered net cp now be free o =
    elim (Bool-cases (is_banned (get_backend_state cp be) now)) [
      | inl x ↦ rw (x, start_update) (λ last. o)
      | inr x ↦ elim (Bool-cases (not (is_healthy be now) && not be.forced_candidate)) [
        | inl y ↦ rw (x, start_update) (rw (y, start_update) (λ last. ban-IsOrdered cp now be free))
        | inr y ↦
            rw (x, start_update)
              (rw (y, start_update) (write_answers-IsOrdered cp now be (ask net be) free o))
      ]
    ]

-- A step at one backend that leaves the rest, and this backend in order unless a ban follows.
at_backend-IsSound :
    (bg : BackendGroup) (s : Polling) (cq : ConsensusPoller) (be : Backend) (follows : Bool)
    → Kept s.poller cq be
    → (Unforced bg be.id → follows ≡ false → IsOrdered (cq.backend_state be.id))
    → IsSound bg s
    → IsSound bg (record { poller = cq; to_ban = put_flag s.to_ban be.id follows })
unfolding Kept
at_backend-IsSound bg s cq be follows kept own sound = record {
  same_group = kept.0 ∙ sound.same_group;
  ordered = λ j u last. elim (Bool-cases (be.id == j)) [
    | inl x ↦
        let same : be.id ≡ j = (==_iff be.id j).0 x in
        subst (λ k. IsOrdered (cq.backend_state k)) same
          (own (subst (Unforced bg) (sym same) u) (ground (arith, x, last)))
    | inr x ↦
        subst IsOrdered (sym (kept.2 j (λ e. absurd (ground (arith, x, (==_iff be.id j).1 e)))))
          (sound.ordered j u (ground (arith, x, last)))
  ];
  within = λ b h. sound.within b (subst (Among b) kept.1 h);
}

in_group :
    (bg : BackendGroup) (s : Polling) (be : Backend)
    → IsSound bg s
    → Among be s.poller.backend_group.backends
    → Among be bg.backends
in_group bg s be sound h = subst (λ g. Among be g.backends) sound.same_group h

publish-IsSound :
    (bg : BackendGroup) (s : Polling) (cs : List Candidate) (low : Lowest) (proposed : ℕ)
    (broken : Bool)
    → IsSound bg s
    → IsSound bg (record s { poller = (publish s.poller cs low proposed broken).poller })
unfolding publish
publish-IsSound bg s cs low proposed broken sound = record {
  same_group = sound.same_group;
  ordered = sound.ordered;
  within = λ b h.
      subst (λ g. Among b g.backends) sound.same_group
        (Among-filter _ b s.poller.backend_group.backends h);
}

publish_found-IsSound :
    (bg : BackendGroup) (s : Polling) (cs : List Candidate) (low : Lowest) (r : Search)
    (u : GroupUpdate)
    → publish_found s.poller cs low r ≡ some u
    → IsSound bg s
    → IsSound bg (record s { poller = u.poller })
publish_found-IsSound bg s cs low (found proposed hash broken) u e sound =
    subst (λ v. IsSound bg (record s { poller = v.poller })) (some_inj e)
      (publish-IsSound bg s cs low proposed broken sound)
publish_found-IsSound bg s cs low Group.panicked u e sound = absurd (cc)
publish_found-IsSound bg s cs low out_of_fuel u e sound = absurd (cc)

update_group-IsSound :
    (bg : BackendGroup) (nets : ℕ → Net) (encode : ℕ → String)
    (order : List Candidate → ℕ → List Candidate) (fuel : ℕ) (s : Polling) (now : ℕ)
    (u : GroupUpdate)
    → update_backend_group_consensus nets encode order fuel s.poller now ≡ some u
    → IsSound bg s
    → IsSound bg (record s { poller = u.poller })
unfolding update_backend_group_consensus
update_group-IsSound bg nets encode order fuel s now u e sound =
    let cs = get_consensus_candidates s.poller now in
    let low = lowest_from no_lowest (order cs 0) in
    elim (Bool-cases (ltb 0 low.latest)) [
      | inl x ↦
          publish_found-IsSound bg s cs low _ u (rw (x, update_backend_group_consensus) at e) sound
      | inr x ↦
          subst (λ v. IsSound bg (record s { poller = v.poller }))
            (some_inj (
              let e' : some (publish s.poller cs low low.latest false) ≡ some u =
                rw (x, update_backend_group_consensus) at e in
              e'))
            (publish-IsSound bg s cs low low.latest false sound)
    ]

-- Every turn of a goroutine keeps the invariant.
Round-IsSound : (bg : BackendGroup) {s t : Polling} → Round s t → IsSound bg s → IsSound bg t
unfolding get_backend_state
Round-IsSound bg {s} (write net now be w h idle) sound =
    at_backend-IsSound bg s _ (with_windows w be) _
      (start_update-Kept net s.poller now (with_windows w be))
      (λ u last.
        start_update-IsOrdered net s.poller now (with_windows w be)
          (u be (in_group bg s be sound h) refl) (sound.ordered be.id u idle) last)
      sound
Round-IsSound bg {s} (ban_late now be w h due) sound =
    at_backend-IsSound bg s _ (with_windows w be) false (ban-Kept s.poller now (with_windows w be))
      (λ u last.
        ban-IsOrdered s.poller now (with_windows w be) (u be (in_group bg s be sound h) refl))
      sound
Round-IsSound bg {s} (group nets encode order fuel now u e) sound =
    update_group-IsSound bg nets encode order fuel s now u e sound

-- A poller before anything was recorded.
IsNew : BackendGroup → ConsensusPoller → Type 0
IsNew bg cp =
    (cp.backend_group ≡ bg) × ((j : ℕ) → IsOrdered (cp.backend_state j)) × (cp.consensus_group ≡ [])

apply_opt-IsNew :
    (bg : BackendGroup) (o : ConsensusOpt) (cp : ConsensusPoller)
    → IsNew bg cp
    → IsNew bg (apply_opt o cp)
unfolding apply_opt IsNew Consensus.add_listener
apply_opt-IsNew bg (Consensus.with_listener l) cp h = h
apply_opt-IsNew bg (Consensus.with_ban_period l) cp h = h
apply_opt-IsNew bg (Consensus.with_max_update_threshold l) cp h = h
apply_opt-IsNew bg (Consensus.with_max_block_lag l) cp h = h
apply_opt-IsNew bg (Consensus.with_max_block_range l) cp h = h
apply_opt-IsNew bg (Consensus.with_min_peer_count l) cp h = h
apply_opt-IsNew bg (Consensus.with_poller_interval l) cp h = h

apply_opts-IsNew :
    (bg : BackendGroup) (os : List ConsensusOpt) (cp : ConsensusPoller)
    → IsNew bg cp
    → IsNew bg (apply_opts os cp)
unfolding apply_opts
apply_opts-IsNew bg [] cp h = h
apply_opts-IsNew bg (o ∷ os) cp h =
    apply_opts-IsNew bg os (apply_opt o cp) (apply_opt-IsNew bg o cp h)

reset_states-IsOrdered :
    (bes : List Backend) (m : ℕ → BackendState)
    → ((j : ℕ) → IsOrdered (m j))
    → (j : ℕ) → IsOrdered (reset_states bes m j)
unfolding reset_states zero_state
reset_states-IsOrdered [] m h j = h j
reset_states-IsOrdered (be ∷ bes) m h j = reset_states-IsOrdered bes _ (λ i. ground (arith, h i)) j

new_polling-IsSound :
    (bg : BackendGroup) (opts : List ConsensusOpt) → IsSound bg (new_polling bg opts)
unfolding new_polling new_consensus_poller reset IsNew zero_state
new_polling-IsSound bg opts =
    let (g, o, c) = apply_opts-IsNew bg opts _ (refl, (λ j. omega arith), refl) in
    record {
      same_group = g;
      ordered = λ j u last. reset_states-IsOrdered _ _ o j;
      within = λ b h. absurd (subst (Among b) c h);
    }

-- However the goroutines of the poller take turns, also between the two writes of an update, and whatever
-- the backends answer: the group stays; for every backend that is no forced candidate finalized <= safe
-- <= latest holds in its recorded state, unless it is about to be banned; and the consensus group has only
-- backends of the group.
pub Reached-IsSound :
    (bg : BackendGroup) (opts : List ConsensusOpt) {s : Polling} → Reached bg opts s → IsSound bg s
Reached-IsSound bg opts start = new_polling-IsSound bg opts
Reached-IsSound bg opts (later r step) = Round-IsSound bg step (Reached-IsSound bg opts r)
