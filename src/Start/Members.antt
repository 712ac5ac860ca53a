-- ===== src/Start/Members.antt =====
-- proxyd.go: the backends of the groups that `Start` makes are sound.
use bsc_builder_proxyd.Base.{
  All-snoc, ◌≡◌, refl, subst, inl, inr, List, [], ◌∷◌, String, some, eqb, string_eq, ◌==◌, All,
  lookup, length, Bool-cases,
}
use bsc_builder_proxyd.Backend.{Backend}
use bsc_builder_proxyd.Config.{BackendGroupConfig}
use bsc_builder_proxyd.Start.{
  ok, guard, or_err, >>=-eq-ok, ok_inj, or_err-eq-ok, undefined_backend, fallbacks_mismatch,
}
use bsc_builder_proxyd.Start.Groups.{
  StartedGroup, Members, no_members, add_members, add_member, make_group, make_groups,
}
use bsc_builder_proxyd.Start.Sound.{IsSoundBackend, AllSound}

-- A group under its name, of backends that are sound under names of their own.
pub record IsSoundGroup (name : String) (g : StartedGroup) : Type 0 where
  pub named : g.group.name ≡ name
  pub sound : All (λ b. IsSoundBackend b.name b) g.group.backends

lookup-AllSound :
    (bs : List (String × Backend)) (name : String) (b : Backend)
    → AllSound bs
    → lookup name bs ≡ some b
    → IsSoundBackend b.name b
unfolding lookup
lookup-AllSound [] name b h e = absurd (cc)
lookup-AllSound ((n, c) ∷ bs) name b (h, hs) e = elim (Bool-cases (eqb n name)) [
  | inl x ↦
      let same : c ≡ b = cc (rw x at e) in
      subst (λ d. IsSoundBackend d.name d) same
        (record { named = refl; addressed = h.addressed; targets = h.targets })
  | inr x ↦ lookup-AllSound bs name b hs (rw x at e)
]

module _ (bs : List (String × Backend)) (sound : AllSound bs) where
  add_members-All :
      (fbs names : List String) (m n : Members)
      → All (λ b. IsSoundBackend b.name b) m.backends
      → add_members bs fbs names m ≡ ok n
      → All (λ b. IsSoundBackend b.name b) n.backends
  unfolding add_members
  add_members-All fbs [] m n h e =
      subst (λ k. All (λ b. IsSoundBackend b.name b) k.backends) (ok_inj e) h
  add_members-All fbs (name ∷ names) m n h e =
      let (b, a, e1) = >>=-eq-ok (or_err (lookup name bs) (undefined_backend name)) _ e in
      add_members-All fbs names (add_member fbs name b m) n
        (All-snoc _ m.backends b h
          (lookup-AllSound bs name b sound (or_err-eq-ok _ (undefined_backend name) a)))
        e1

  make_group-IsSound :
      (name : String) (cfg : BackendGroupConfig) (g : StartedGroup)
      → make_group bs name cfg ≡ ok g
      → IsSoundGroup name g
  unfolding make_group
  make_group-IsSound name cfg g h =
      let (m, a, h1) = >>=-eq-ok (add_members bs cfg.fallbacks cfg.backends no_members) _ h in
      let (u, b, h2) =
        >>=-eq-ok
          (guard (m.fallback_count == length cfg.fallbacks)
            (fallbacks_mismatch m.fallback_count (length cfg.fallbacks) name))
          _ h1 in
      subst (IsSoundGroup name) (ok_inj h2) (record {
        named = refl;
        sound = add_members-All cfg.fallbacks cfg.backends no_members m tt a;
      })

  pub make_groups-All :
      (cfgs : List (String × BackendGroupConfig)) (gs : List (String × StartedGroup))
      → make_groups bs cfgs ≡ ok gs
      → All (λ p. IsSoundGroup p.0 p.1) gs
  unfolding make_groups
  make_groups-All [] gs h = subst (All _) (ok_inj h) tt
  make_groups-All ((name, cfg) ∷ cfgs) gs h =
      let (g, a, h1) = >>=-eq-ok (make_group bs name cfg) _ h in
      let (rest, c, h2) = >>=-eq-ok (make_groups bs cfgs) _ h1 in
      subst (All _) (ok_inj h2) (make_group-IsSound name cfg g a, make_groups-All cfgs rest c)
