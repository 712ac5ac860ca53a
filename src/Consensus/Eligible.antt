-- ===== src/Consensus/Eligible.antt =====
-- Who gets into the list of candidates.
use bsc_builder_proxyd.Base.{
  ℕ, ◌+◌, ◌≤◌, ◌≡◌, refl, sym, ◌⊎◌, inl, inr, Bool, true, false, not, List, [], ◌∷◌, arith,
  if◌then◌else◌, ltb, filter, All, Bool-cases, is_empty, filter-All,
}
use bsc_builder_proxyd.Backend.{Backend, is_healthy}
use bsc_builder_proxyd.Consensus.{
  ConsensusPoller, get_backend_state, is_banned, primaries, fallbacks,
}
use bsc_builder_proxyd.Consensus.Candidates.{
  Candidate, is_candidate, collect, highest_from, is_lagging, filter_candidates,
  get_consensus_candidates,
}

-- The conditions of the source's comment on a serving node.
abbrev pub Serves : ConsensusPoller → ℕ → Backend → Type 0
Serves cp now be =
    let bs = get_backend_state cp be in
    (be.forced_candidate ≡ true)
    ⊎ ((bs.banned_until ≤ now)
        × (is_healthy be now ≡ true)
        × ((be.skip_peer_count_check ≡ true) ⊎ (cp.min_peer_count ≤ bs.peer_count))
        × (bs.in_sync ≡ true)
        × (now ≤ bs.last_update + cp.max_update_threshold))

is_candidate-Serves :
    (cp : ConsensusPoller) (now : ℕ) (be : Backend)
    → is_candidate cp now be ≡ true
    → Serves cp now be
unfolding is_candidate is_banned
is_candidate-Serves cp now be h = ground arith

abbrev pub IsCurrent : ConsensusPoller → ℕ → Candidate → Type 0
IsCurrent cp now c = Serves cp now c.0 × (c.1 ≡ get_backend_state cp c.0)

collect-IsCurrent :
    (cp : ConsensusPoller) (now : ℕ) (bes : List Backend)
    → All (IsCurrent cp now) (collect cp now bes)
unfolding collect
collect-IsCurrent cp now [] = tt
collect-IsCurrent cp now (be ∷ bes) = elim (Bool-cases (is_candidate cp now be)) [
  | inl e ↦ rw (e, collect) ((is_candidate-Serves cp now be e, refl), collect-IsCurrent cp now bes)
  | inr e ↦ rw (e, collect) (collect-IsCurrent cp now bes)
]

filter-All_of {ℓ κ} :
    {A : Type ℓ} (P : A → Type κ) (p : A → Bool) (xs : List A) → All P xs → All P (filter p xs)
filter-All_of P p [] h = tt
filter-All_of P p (x ∷ xs) h = elim (Bool-cases (p x)) [
  | inl e ↦ rw e (h.0, filter-All_of P p xs h.1)
  | inr e ↦ rw e (filter-All_of P p xs h.1)
]

-- Every candidate is either a forced candidate, or not banned, healthy, with enough peers unless
-- these are not checked, in sync and recently updated; and it comes with its current state.
pub filter_candidates-IsCurrent :
    (cp : ConsensusPoller) (now : ℕ) (bes : List Backend)
    → All (IsCurrent cp now) (filter_candidates cp now bes)
unfolding filter_candidates
filter_candidates-IsCurrent cp now bes =
    filter-All_of (IsCurrent cp now) _ (collect cp now bes) (collect-IsCurrent cp now bes)

abbrev latest_of : Candidate → ℕ
latest_of c = c.1.latest_block_number

highest_from-ge :
    (top : ℕ) (cs : List Candidate)
    → (top ≤ highest_from top cs) × All (λ c. latest_of c ≤ highest_from top cs) cs
unfolding highest_from
highest_from-ge top [] = (omega arith, tt)
highest_from-ge top ((be, bs) ∷ cs) = ground (
  arith,
  highest_from-ge (if ltb top bs.latest_block_number then bs.latest_block_number else top) cs,
)

All-mono {ℓ κ μ} :
    {A : Type ℓ} {P : A → Type κ} {Q : A → Type μ} (xs : List A)
    → ((x : A) → P x → Q x)
    → All P xs
    → All Q xs
All-mono [] f h = tt
All-mono (x ∷ xs) f h = (f x h.0, All-mono xs f h.1)

near_top :
    (cp : ConsensusPoller) (top : ℕ) (c : Candidate)
    → not (is_lagging cp top c) ≡ true
    → top ≤ latest_of c + cp.max_block_lag
unfolding is_lagging
near_top cp top (be, bs) h = ground arith

-- Two candidates are never further apart than the allowed lag: whatever of the list, the latest
-- block of one is at most the latest block of the other plus `max_block_lag`.
pub filter_candidates_lag :
    (cp : ConsensusPoller) (now : ℕ) (bes : List Backend)
    → let cs = filter_candidates cp now bes in
      All
        (λ c. All (λ d. d.1.latest_block_number ≤ c.1.latest_block_number + cp.max_block_lag) cs)
        cs
unfolding filter_candidates
filter_candidates_lag cp now bes =
    let all = collect cp now bes in
    let top = highest_from 0 all in
    let kept = filter (λ c. not (is_lagging cp top c)) all in
    let below : All (λ c. latest_of c ≤ top) kept =
      filter-All_of (λ c. latest_of c ≤ top) _ all (highest_from-ge 0 all).1 in
    All-mono kept (λ c near. All-mono kept (λ d h. omega (arith, near_top cp top c near)) below)
      (filter-All (λ c. not (is_lagging cp top c)) all)

-- A highest candidate is not lagging.
top_stays :
    (cp : ConsensusPoller) (t start : ℕ) (cs : List Candidate)
    → highest_from start cs ≡ t
    → (t ≡ start) ⊎ (is_empty (filter (λ c. not (is_lagging cp t c)) cs) ≡ false)
unfolding highest_from is_lagging
top_stays cp t start [] e = inl (sym e)
top_stays cp t start ((be, bs) ∷ cs) e = ground (
  arith,
  top_stays cp t (if ltb start bs.latest_block_number then bs.latest_block_number else start) cs e,
)

zero_stays :
    (cp : ConsensusPoller) (cs : List Candidate)
    → is_empty cs ≡ false
    → is_empty (filter (λ c. not (is_lagging cp 0 c)) cs) ≡ false
unfolding is_lagging
zero_stays cp [] h = h
zero_stays cp ((be, bs) ∷ cs) h = ground arith

-- Dropping the lagging backends never drops them all: if some backend meets the conditions, there
-- is a candidate.
pub filter_candidates_nonempty :
    (cp : ConsensusPoller) (now : ℕ) (bes : List Backend)
    → is_empty (collect cp now bes) ≡ false
    → is_empty (filter_candidates cp now bes) ≡ false
unfolding filter_candidates
filter_candidates_nonempty cp now bes h =
    let cs = collect cp now bes in
    elim (top_stays cp (highest_from 0 cs) 0 cs refl) [
      | inl e ↦ rw e (zero_stays cp cs h)
      | inr kept ↦ kept
    ]

filter_empty :
    (p : Candidate → Bool) (cs : List Candidate)
    → is_empty cs ≡ true
    → is_empty (filter p cs) ≡ true
filter_empty p [] h = refl
filter_empty p (c ∷ cs) h = cc

filter_candidates_empty :
    (cp : ConsensusPoller) (now : ℕ) (bes : List Backend)
    → is_empty (collect cp now bes) ≡ true
    → is_empty (filter_candidates cp now bes) ≡ true
unfolding filter_candidates
filter_candidates_empty cp now bes h = filter_empty _ (collect cp now bes) h

-- The candidates of a round are all primaries or all fallbacks, and fallbacks only when no primary
-- meets the conditions.
get_consensus_candidates_cases :
    (cp : ConsensusPoller) (now : ℕ)
    → ((get_consensus_candidates cp now ≡ filter_candidates cp now (primaries cp.backend_group))
        × (is_empty (collect cp now (primaries cp.backend_group)) ≡ false))
      ⊎ ((get_consensus_candidates cp now ≡ filter_candidates cp now (fallbacks cp.backend_group))
          × (is_empty (collect cp now (primaries cp.backend_group)) ≡ true))
unfolding get_consensus_candidates
get_consensus_candidates_cases cp now = ground (
  arith,
  filter_candidates_nonempty cp now (primaries cp.backend_group),
  filter_candidates_empty cp now (primaries cp.backend_group),
)
