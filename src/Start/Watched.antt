-- ===== src/Start/Watched.antt =====
-- proxyd.go: which groups of a started proxy have a poller.
use mathlib.Core.List.{Permᴰ}
use bsc_builder_proxyd.Base.{
  Any, ◌≡◌, refl, sym, ap, ◌∙◌, subst, ◌⊎◌, inl, inr, true, false, List, [], ◌∷◌, String, Option,
  none, some, arith, eqb, string_eq, is_some, All, All-Perm, lookup, Bool-cases, Option-cases,
}
use bsc_builder_proxyd.Consensus.{new_consensus_poller}
use bsc_builder_proxyd.Config.{
  Config, BackendGroupConfig, Validated, validated, both_defined, validate_routing_strategy,
}
use bsc_builder_proxyd.Start.{ok, Env, >>=-eq-ok, ok_inj, new_redis_client, check_redis_connection}
use bsc_builder_proxyd.Start.Groups.{StartedGroup}
use bsc_builder_proxyd.Start.Pollers.{
  StartedPoller, SharedTracker, consensus_opts, check_fallbacks, share_tracker, make_poller,
  poller_if, start_group, add_poller, start_groups,
}
use bsc_builder_proxyd.Start.Run.{start, Started, Regroup}
use bsc_builder_proxyd.Start.Steps.{start-Steps}
use bsc_builder_proxyd.Start.Routable.{serve-Taken}

-- The poller of a group: made for it by the configuration, and with a shared tracker exactly if the
-- configuration wants one.
pub record PollsFor (cfg : BackendGroupConfig) (g : StartedGroup) (p : StartedPoller) : Type 0 where
  pub made : p.poller ≡ new_consensus_poller g.group (consensus_opts cfg)
  pub shares : is_some p.shared ≡ cfg.consensus_ha

-- A group has a valid strategy, and a poller under its name if that is to be aware of consensus.
pub record IsWatched (cfgs : List (String × BackendGroupConfig))
    (ps : List (String × StartedPoller)) (p : String × StartedGroup) : Type 0 where
  pub cfg : BackendGroupConfig
  pub configured : lookup p.0 cfgs ≡ some cfg
  pub strategy : String
  pub valid : validate_routing_strategy cfg ≡ validated strategy true
  pub polled :
      (eqb strategy "consensus_aware" ≡ false) ⊎ Any (λ q. (q.0 ≡ p.0) × PollsFor cfg p.1 q.1) ps

share_tracker-shares :
    (env : Env) (name : String) (cfg : BackendGroupConfig) (o : Option SharedTracker)
    → share_tracker env name cfg ≡ ok o
    → is_some o ≡ cfg.consensus_ha
unfolding share_tracker
share_tracker-shares env name cfg o h = elim (Bool-cases cfg.consensus_ha) [
  | inr x ↦ ap is_some (sym (ok_inj (rw x at h))) ∙ sym x
  | inl x ↦ elim (Bool-cases (eqb cfg.consensus_ha_redis.url "")) [
    | inl y ↦ absurd (ground (arith, h, x, y))
    | inr y ↦
        let h0 = rw y at (rw x at h) in
        let (client, a, h1) =
          >>=-eq-ok
            (new_redis_client env cfg.consensus_ha_redis.url cfg.consensus_ha_redis.redis_cluster) _
            h0 in
        let (u, b, h2) = >>=-eq-ok (check_redis_connection env client) _ h1 in
        ap is_some (sym (ok_inj h2)) ∙ sym x
  ]
]

make_poller-PollsFor :
    (env : Env) (cfg : BackendGroupConfig) (g : StartedGroup) (p : StartedPoller)
    → make_poller env cfg g ≡ ok p
    → PollsFor cfg g p
unfolding make_poller
make_poller-PollsFor env cfg g p h =
    let (u, a, h1) = >>=-eq-ok (check_fallbacks g.group.fallback_backends cfg.backends) _ h in
    let (shared, b, h2) = >>=-eq-ok (share_tracker env g.group.name cfg) _ h1 in
    subst (PollsFor cfg g) (ok_inj h2)
      (record { made = refl; shares = share_tracker-shares env g.group.name cfg shared b })

-- What comes of the start of one group.
abbrev Result : BackendGroupConfig → StartedGroup → Validated → Option StartedPoller → Type 0
Result cfg g v o =
    (strategy : String) × (v ≡ validated strategy true)
    × ((eqb strategy "consensus_aware" ≡ false)
        ⊎ ((p : StartedPoller) × (o ≡ some p) × PollsFor cfg g p))

poller_if-Result :
    (env : Env) (name : String) (cfg : BackendGroupConfig) (g : StartedGroup) (v : Validated)
    (o : Option StartedPoller)
    → poller_if env name cfg g v ≡ ok o
    → Result cfg g v o
poller_if-Result env name cfg g both_defined o h = absurd (cc)
poller_if-Result env name cfg g (validated strategy false) o h = absurd (cc)
poller_if-Result env name cfg g (validated strategy true) o h = (
  strategy,
  refl,
  elim (Bool-cases (eqb strategy "consensus_aware")) [
    | inr x ↦ inl x
    | inl x ↦
        let (p, a, h1) = >>=-eq-ok (make_poller env cfg g) _ (rw x at h) in
        inr (p, sym (ok_inj h1), make_poller-PollsFor env cfg g p a)
  ],
)

-- More pollers do not take one away.
IsWatched-more :
    (cfgs : List (String × BackendGroupConfig)) (name : String) (o : Option StartedPoller)
    (ps : List (String × StartedPoller)) (gs : List (String × StartedGroup))
    → All (IsWatched cfgs ps) gs
    → All (IsWatched cfgs (add_poller name o ps)) gs
IsWatched-more cfgs name none ps gs h = h
IsWatched-more cfgs name (some p) ps [] h = tt
IsWatched-more cfgs name (some p) ps (g ∷ gs) (h, hs) = (
  record {
    cfg = h.cfg;
    configured = h.configured;
    strategy = h.strategy;
    valid = h.valid;
    polled = elim h.polled [ inl x ↦ inl x | inr x ↦ inr (inr x) ];
  },
  IsWatched-more cfgs name (some p) ps gs hs,
)

started_group :
    (cfgs : List (String × BackendGroupConfig)) (name : String) (cfg : BackendGroupConfig)
    (g : StartedGroup) (o : Option StartedPoller) (ps : List (String × StartedPoller))
    → lookup name cfgs ≡ some cfg
    → Result cfg g (validate_routing_strategy cfg) o
    → IsWatched cfgs (add_poller name o ps) (name, g)
started_group cfgs name cfg g o ps e (strategy, v, r) = record {
  cfg = cfg;
  configured = e;
  strategy = strategy;
  valid = v;
  polled = elim r [
    | inl x ↦ inl x
    | inr (p, x, polls) ↦ inr (
        subst (λ k. Any (λ q. (q.0 ≡ name) × PollsFor cfg g q.1) (add_poller name k ps)) (sym x)
          (inl (refl, polls)))
  ];
}

start_groups-All :
    (env : Env) (cfgs : List (String × BackendGroupConfig)) (gs : List (String × StartedGroup))
    (ps : List (String × StartedPoller))
    → start_groups env cfgs gs ≡ ok ps
    → All (IsWatched cfgs ps) gs
unfolding start_groups start_group
start_groups-All env cfgs [] ps h = tt
start_groups-All env cfgs ((name, g) ∷ gs) ps h = elim (Option-cases (lookup name cfgs)) [
  | inl x ↦ absurd (ground (arith, h, x))
  | inr (cfg, x) ↦
      let (o, a, h1) = >>=-eq-ok (start_group env name cfg g) _ (rw (x, start_groups) at h) in
      let (rest, b, h2) = >>=-eq-ok (start_groups env cfgs gs) _ h1 in
      subst (λ k. All (IsWatched cfgs k) ((name, g) ∷ gs)) (ok_inj h2)
        (
          started_group cfgs name cfg g o rest x (poller_if-Result env name cfg g _ o a),
          IsWatched-more cfgs name o rest gs (start_groups-All env cfgs gs rest b),
        )
]

-- Whatever the order in which Go ranges over the groups, in a proxy that has started every group has a
-- configuration with one of the valid strategies and, if that is to be aware of consensus, a poller under
-- its name: one that was made for this group with the options of this configuration, and that
-- shares its state through Redis exactly if the configuration says so.
pub start-IsWatched :
    (env : Env) (range : Regroup) (cfg : Config) (s : Started)
    → ((gs : List (String × StartedGroup)) → Permᴰ (range gs) gs)
    → start env range cfg ≡ ok s
    → All (IsWatched cfg.backend_groups s.pollers) s.server.backend_groups
start-IsWatched env range cfg s perm h =
    let steps = start-Steps env range cfg s h in
    let taken = serve-Taken env cfg steps.clients steps.topology s.server steps.served in
    rw taken.groups (
      All-Perm _ (perm steps.topology.groups)
        (start_groups-All env cfg.backend_groups _ s.pollers steps.polled))
