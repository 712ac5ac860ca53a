-- ===== src/Consensus/Agreement.antt =====
-- What the walk down from the lowest latest block finds.
use mathlib.Core.List.{Permᴰ}
use mathlib.Core.List.Permᴰ
use bsc_builder_proxyd.Base.{
  ℕ, zero, suc, ◌<◌, ◌≡◌, refl, ◌⊎◌, inl, inr, Bool, true, false, List, [], ◌∷◌, String, Option,
  none, some, arith, eqb, string_eq, All, All-Perm, Bool-cases, filter, subst,
}
use bsc_builder_proxyd.Consensus.{ConsensusPoller}
use bsc_builder_proxyd.Consensus.Fetch.{Net, Outcome, ok, err, crash, fetch_block}
use bsc_builder_proxyd.Consensus.Candidates.{Candidate, get_consensus_candidates}
use bsc_builder_proxyd.Consensus.Group.{
  Walk, Verdict, agrees, differs, absent, panics, judge, walk, Search, found, settle, pred64,
  Lowest, lowest_from, no_lowest, update_backend_group_consensus, publish, publish_found, member,
  GroupUpdate,
}

-- An answer that agrees on a block: none at all, or that number with the hash. A backend that sends
-- an empty hash before any other has sent one agrees too.
abbrev pub Fits : ℕ → String → Outcome (ℕ × String) → Type 0
Fits p h err = Unit {0}
Fits p h crash = ⊥
Fits p h (ok (n, g)) = (n ≡ p) × ((g ≡ h) ⊎ (g ≡ ""))

abbrev pub AllFit : Net → (ℕ → String) → ℕ → String → List Candidate → Type 0
AllFit net encode p h cs = All (λ c. Fits p h (fetch_block net c.0 (encode p))) cs

pub string_iff : (a b : String) → ((eqb a b) ≡ true → a ≡ b) × (a ≡ b → (eqb a b) ≡ true)
string_iff a b = string_eq.beq_iff a b

judge_agrees :
    (current p : ℕ) (hash h : String) (o : Outcome (ℕ × String))
    → judge current p hash o ≡ agrees h
    → ((hash ≡ "") ⊎ (h ≡ hash)) × Fits p h o
unfolding judge
judge_agrees current p hash h err e = absurd (cc)
judge_agrees current p hash h crash e = absurd (cc)
judge_agrees current p hash h (ok (n, g)) e =
    ground (arith, string_iff hash "", string_iff g hash, string_iff g g)

judge_absent :
    (current p : ℕ) (hash h : String) (o : Outcome (ℕ × String))
    → judge current p hash o ≡ absent
    → Fits p h o
unfolding judge
judge_absent current p hash h err e = tt
judge_absent current p hash h crash e = absurd (cc)
judge_absent current p hash h (ok (n, g)) e = absurd (ground arith)

Fits-later :
    (p : ℕ) (h k : String) (o : Outcome (ℕ × String)) → Fits p h o → (h ≡ "") ⊎ (k ≡ h) → Fits p k o
Fits-later p h k err f c = tt
Fits-later p h k crash f c = f
Fits-later p h k (ok (n, g)) f c = ground arith

pub Verdict-cases :
    (v : Verdict)
    → ((h : String) × (v ≡ agrees h))
      ⊎ (v ≡ absent)
      ⊎ ((h : String) × (b : Bool) × (v ≡ differs h b))
      ⊎ (v ≡ panics)
Verdict-cases (agrees h) = inl (h, refl)
Verdict-cases absent = inr (inl refl)
Verdict-cases (differs h b) = inr (inr (inl (h, b, refl)))
Verdict-cases panics = inr (inr (inr refl))

then_later : (a b c : String) → (a ≡ "") ⊎ (b ≡ a) → (b ≡ "") ⊎ (c ≡ b) → (a ≡ "") ⊎ (c ≡ a)
then_later a b c p q = ground arith

-- A walk that ends in agreement has met no answer that differs from its block and hash.
walk-AllFit :
    (net : Net) (encode : ℕ → String) (current p : ℕ) (hash : String) (broken : Bool)
    (cs : List Candidate) (w : Walk)
    → walk net encode current p hash broken cs ≡ some w
    → w.agreed ≡ true
    → ((hash ≡ "") ⊎ (w.hash ≡ hash)) × AllFit net encode p w.hash cs
unfolding walk
walk-AllFit net encode current p hash broken [] w e a = (ground arith, tt)
walk-AllFit net encode current p hash broken ((be, bs) ∷ cs) w e a =
    let o = fetch_block net be (encode p) in
    elim (Verdict-cases (judge current p hash o)) [
      | inl (h, q) ↦
          let rest = walk-AllFit net encode current p h broken cs w (rw (q, walk) at e) a in
          let here = judge_agrees current p hash h o q in
          (then_later hash h w.hash here.0 rest.0, (Fits-later p h w.hash o here.1 rest.0, rest.1))
      | inr (inl q) ↦
          let rest = walk-AllFit net encode current p hash broken cs w (rw (q, walk) at e) a in
          (rest.0, (judge_absent current p hash w.hash o q, rest.1))
      | inr (inr (inl (h, b, q))) ↦ absurd (ground (arith, e, q))
      | inr (inr (inr q)) ↦ absurd (ground (arith, e, q))
    ]

Option_walk-cases : (o : Option Walk) → (o ≡ none) ⊎ ((w : Walk) × (o ≡ some w))
Option_walk-cases none = inl refl
Option_walk-cases (some w) = inr (w, refl)

-- The block that the walk down settles on was agreed on by all that answered, in one walk.
settle-AllFit :
    (nets : ℕ → Net) (encode : ℕ → String) (order : ℕ → List Candidate) (current fuel n p : ℕ)
    (hash : String) (broken : Bool) (q : ℕ) (h : String) (b : Bool)
    → settle nets encode order current fuel n p hash broken ≡ found q h b
    → (m : ℕ) × AllFit (nets m) encode q h (order m)
unfolding settle
settle-AllFit nets encode order current zero n p hash broken q h b e = absurd (cc)
settle-AllFit nets encode order current (suc fuel) n p hash broken q h b e =
    elim (Option_walk-cases (walk (nets n) encode current p hash broken (order n))) [
      | inl x ↦ absurd (ground (arith, e, x))
      | inr (w, x) ↦ elim (Bool-cases w.agreed) [
        | inl a ↦
            let fit = (walk-AllFit (nets n) encode current p hash broken (order n) w x a).1 in
            let same : (p ≡ q) × (w.hash ≡ h) = ground (arith, e, x, a) in
            (
              n,
              subst (λ k. AllFit (nets n) encode k h (order n)) same.0
                  (subst (λ k. AllFit (nets n) encode p k (order n)) same.1 fit),
            )
        | inr d ↦
            settle-AllFit nets encode order current fuel (suc n) (pred64 p) "" w.broken q h b
              (ground (arith, e, x, d))
      ]
    ]

Search-cases :
    (s : Search)
    → ((q : ℕ) × (h : String) × (b : Bool) × (s ≡ found q h b))
      ⊎ ((cp : ConsensusPoller) (cs : List Candidate) (low : Lowest)
          → publish_found cp cs low s ≡ none)
Search-cases (found q h b) = inl (q, h, b, refl)
Search-cases Search.panicked = inr (λ cp cs low. refl)
Search-cases Search.out_of_fuel = inr (λ cp cs low. refl)

module _ (nets : ℕ → Net) (encode : ℕ → String) (order : List Candidate → ℕ → List Candidate)
    (fuel : ℕ) (cp : ConsensusPoller) (now : ℕ)
    (shuffles : (cs : List Candidate) (n : ℕ) → Permᴰ cs (order cs n)) where
  -- Each range over the candidates visits all of them, in any order. When an update of the group
  -- completes and the lowest latest block it found is not 0, there is one walk in which every
  -- candidate that answered returned the block number now in the tracker, with one common hash or
  -- an empty one; and the consensus group is made of exactly the group's backends that are
  -- candidates.
  pub update_group-AllFit :
      (u : GroupUpdate)
      → update_backend_group_consensus nets encode order fuel cp now ≡ some u
      → let cs = get_consensus_candidates cp now in
        0 < (lowest_from no_lowest (order cs 0)).latest
        → ((m : ℕ) × (h : String) × AllFit (nets m) encode u.poller.tracker.latest h cs)
          × (u.poller.consensus_group ≡ filter (member cs) cp.backend_group.backends)
  unfolding update_backend_group_consensus publish
  update_group-AllFit u e some_block =
      let cs = get_consensus_candidates cp now in
      let low = lowest_from no_lowest (order cs 0) in
      let s = settle nets encode (order cs) cp.tracker.latest fuel 1 low.latest low.hash false in
      elim (Search-cases s) [
        | inl (q, h, b, x) ↦
            let (m, fit) = settle-AllFit nets encode (order cs) _ fuel 1 _ _ _ q h b x in
            let same : (u.poller.tracker.latest ≡ q)
                × (u.poller.consensus_group ≡ filter (member cs) cp.backend_group.backends) =
              ground (arith, e, x) in
            ((m, h, rw same.0 (All-Perm _ (Permᴰ.symm (shuffles cs m)) fit)), same.1)
        | inr nothing ↦ absurd (ground (arith, e, nothing cp cs low))
      ]
