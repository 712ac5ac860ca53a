-- ===== src/Consensus/Descent.antt =====
-- The walk down from the lowest latest block ends.
use mathlib.Core.List.{Permᴰ}
use bsc_builder_proxyd.Base.{
  ℕ, zero, suc, ◌-◌, ◌≤◌, ◌<◌, ◌≡◌, ◌≢◌, refl, ◌⊎◌, inl, inr, Bool, true, false, ◌||◌, List, [],
  ◌∷◌, String, some, arith, string_eq, All, All-Perm, Bool-cases, subst, dec_lt,
}
use bsc_builder_proxyd.Consensus.Agreement.{Verdict-cases, string_iff}
use bsc_builder_proxyd.Consensus.{ConsensusPoller}
use bsc_builder_proxyd.Consensus.Fetch.{Net, Outcome, ok, err, crash, fetch_block}
use bsc_builder_proxyd.Consensus.Candidates.{Candidate, get_consensus_candidates}
use bsc_builder_proxyd.Consensus.Group.{
  Walk, agrees, absent, panics, judge, walk, Search, found, settle, pred64, lowest_from, no_lowest,
  update_backend_group_consensus, publish, GroupUpdate,
}

-- Every backend that answers has the block with this hash, and none panics.
abbrev pub Has : ℕ → String → Outcome (ℕ × String) → Type 0
Has p h err = Unit {0}
Has p h crash = ⊥
Has p h (ok (n, g)) = (n ≡ p) × (g ≡ h)

abbrev pub AllHave : Net → (ℕ → String) → ℕ → String → List Candidate → Type 0
AllHave net encode p h cs = All (λ c. Has p h (fetch_block net c.0 (encode p))) cs

abbrev pub IsCalm : Outcome (ℕ × String) → Type 0
IsCalm err = Unit {0}
IsCalm crash = ⊥
IsCalm (ok a) = Unit {0}

abbrev pub AllCalm : Net → (ℕ → String) → ℕ → List Candidate → Type 0
AllCalm net encode p cs = All (λ c. IsCalm (fetch_block net c.0 (encode p))) cs

-- The hash that a walk holds at a block whose hash is `h`: none yet, or `h`.
abbrev pub Awaits : String → String → Type 0
Awaits hash h = (hash ≡ "") ⊎ (hash ≡ h)

judge-Has :
    (current p : ℕ) (hash h : String) (o : Outcome (ℕ × String))
    → Has p h o
    → Awaits hash h
    → ((k : String) × (judge current p hash o ≡ agrees k) × Awaits k h)
      ⊎ (judge current p hash o ≡ absent)
unfolding judge
judge-Has current p hash h err f a = inr refl
judge-Has current p hash h crash f a = absurd f
judge-Has current p hash h (ok (n, g)) f a =
    inl (h, ground (arith, string_iff hash "", string_iff g hash, string_iff g g), inr refl)

walk-AllHave :
    (net : Net) (encode : ℕ → String) (current p : ℕ) (hash h : String) (broken : Bool)
    (cs : List Candidate)
    → AllHave net encode p h cs
    → Awaits hash h
    → (w : Walk) × (walk net encode current p hash broken cs ≡ some w) × (w.agreed ≡ true)
unfolding walk
walk-AllHave net encode current p hash h broken [] f a =
    (record { agreed = true; hash = hash; broken = broken }, refl, refl)
walk-AllHave net encode current p hash h broken ((be, bs) ∷ cs) f a =
    elim (judge-Has current p hash h (fetch_block net be (encode p)) f.0 a) [
      | inl (k, q, ak) ↦ rw (q, walk) (walk-AllHave net encode current p k h broken cs f.1 ak)
      | inr q ↦ rw (q, walk) (walk-AllHave net encode current p hash h broken cs f.1 a)
    ]

judge_calm :
    (current p : ℕ) (hash : String) (o : Outcome (ℕ × String))
    → IsCalm o
    → judge current p hash o ≢ panics
unfolding judge
judge_calm current p hash err f e = cc
judge_calm current p hash crash f e = f
judge_calm current p hash (ok (n, g)) f e = ground arith

walk_calm :
    (net : Net) (encode : ℕ → String) (current p : ℕ) (hash : String) (broken : Bool)
    (cs : List Candidate)
    → AllCalm net encode p cs
    → (w : Walk) × (walk net encode current p hash broken cs ≡ some w)
unfolding walk
walk_calm net encode current p hash broken [] f =
    (record { agreed = true; hash = hash; broken = broken }, refl)
walk_calm net encode current p hash broken ((be, bs) ∷ cs) f =
    elim (Verdict-cases (judge current p hash (fetch_block net be (encode p)))) [
      | inl (h, q) ↦ rw (q, walk) (walk_calm net encode current p h broken cs f.1)
      | inr (inl q) ↦ rw (q, walk) (walk_calm net encode current p hash broken cs f.1)
      | inr (inr (inl (h, b, q))) ↦
          (record { agreed = false; hash = h; broken = broken || b }, rw (q, walk))
      | inr (inr (inr q)) ↦ absurd (judge_calm current p hash _ f.0 q)
    ]

abbrev Settles : ℕ → ℕ → Search → Type 0
Settles m p s = (q : ℕ) × (h : String) × (b : Bool) × (s ≡ found q h b) × (m ≤ q) × (q ≤ p)

above_pred :
    (m p : ℕ) (h : String)
    → m < p
    → p < 18446744073709551616
    → (m < pred64 p) ⊎ ((m ≡ pred64 p) × Awaits "" h)
above_pred m p h l f = elim (dec_lt m (pred64 p)) [
  | yes lt ↦ inl lt
  | no ge ↦ inr (omega arith, inl refl)
]

-- With a block that all have below the start, the walk down ends at or above it.
settle_ends :
    (nets : ℕ → Net) (encode : ℕ → String) (order : ℕ → List Candidate) (m : ℕ) (h : String)
    → ((k : ℕ) → AllHave (nets k) encode m h (order k))
    → ((k j : ℕ) → AllCalm (nets k) encode j (order k))
    → (current fuel n p : ℕ) (hash : String) (broken : Bool) → (m < p) ⊎ ((m ≡ p) × Awaits hash h)
    → p < 18446744073709551616
    → p - m < fuel
    → Settles m p (settle nets encode order current fuel n p hash broken)
unfolding settle
settle_ends nets encode order m h have calm current zero n p hash broken above fits enough =
    absurd (omega arith)
settle_ends nets encode order m h have calm current (suc fuel) n p hash broken (inr (here, aw)) fits
      enough =
    let (w, x, a) =
      walk-AllHave (nets n) encode current p hash h broken (order n)
        (subst (λ k. AllHave (nets n) encode k h (order n)) here (have n)) aw in
    (p, w.hash, w.broken, rw (x, settle) (rw (a, settle)), omega arith, omega arith)
settle_ends nets encode order m h have calm current (suc fuel) n p hash broken (inl below) fits
      enough =
    let (w, x) = walk_calm (nets n) encode current p hash broken (order n) (calm n p) in
    elim (Bool-cases w.agreed) [
      | inl a ↦ (p, w.hash, w.broken, rw (x, settle) (rw (a, settle)), omega arith, omega arith)
      | inr d ↦
          let (q, g, b, e, lo, hi) =
            settle_ends nets encode order m h have calm current fuel (suc n) (pred64 p) "" w.broken
              (above_pred m p h below fits) (omega arith) (omega arith) in
          (q, g, b, rw (x, settle) (rw (d, settle) e), lo, omega arith)
    ]

module _ (nets : ℕ → Net) (encode : ℕ → String) (order : List Candidate → ℕ → List Candidate)
    (fuel : ℕ) (cp : ConsensusPoller) (now : ℕ)
    (shuffles : (cs : List Candidate) (n : ℕ) → Permᴰ cs (order cs n)) where
  -- Each range over the candidates visits all of them, in any order. If there is a block below the
  -- lowest latest block that every candidate which answers has with the same hash, in every walk, no
  -- request panics and the lowest latest block is a uint64, then fuel for more walks than there are
  -- blocks in between is enough: the update completes, with a block that is no lower than that one
  -- and no higher than the lowest latest block.
  pub update_group_ends :
      (m : ℕ) (h : String)
      → let cs = get_consensus_candidates cp now in
        let low = lowest_from no_lowest (order cs 0) in
        ((k : ℕ) → AllHave (nets k) encode m h cs)
        → ((k j : ℕ) → AllCalm (nets k) encode j cs)
        → m < low.latest
        → low.latest < 18446744073709551616
        → low.latest - m < fuel
        → (u : GroupUpdate) × (update_backend_group_consensus nets encode order fuel cp now
            ≡ some u)
          × (m ≤ u.poller.tracker.latest)
          × (u.poller.tracker.latest ≤ low.latest)
  unfolding update_backend_group_consensus publish
  update_group_ends m h have calm below fits enough =
      let cs = get_consensus_candidates cp now in
      let low = lowest_from no_lowest (order cs 0) in
      let (q, g, b, e, lo, hi) =
        settle_ends nets encode (order cs) m h (λ k. All-Perm _ (shuffles cs k) (have k))
          (λ k j. All-Perm _ (shuffles cs k) (calm k j)) cp.tracker.latest fuel 1 low.latest
          low.hash false (inl below) fits enough in
      (publish cp cs low q b, ground (arith, e), lo, hi)
