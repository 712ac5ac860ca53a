-- ===== src/Consensus/Lowest.antt =====
-- The lowest blocks among the candidates.
use bsc_builder_proxyd.Base.{◌≤◌, ◌<◌, ◌≡◌, ◌⊎◌, inr, List, [], ◌∷◌, arith, All}
use bsc_builder_proxyd.Consensus.Candidates.{Candidate}
use bsc_builder_proxyd.Consensus.Group.{Lowest, lower, lowest_from, no_lowest}

abbrev pub HasBlocks : Candidate → Type 0
HasBlocks (be, bs) =
    (0 < bs.latest_block_number) × (0 < bs.safe_block_number) × (0 < bs.finalized_block_number)

abbrev IsBelow : Lowest → Candidate → Type 0
IsBelow low (be, bs) =
    (low.latest ≤ bs.latest_block_number)
    × (low.safe ≤ bs.safe_block_number)
    × (low.finalized ≤ bs.finalized_block_number)

-- `low` has not been set, or bounds `r`.
abbrev Under : Lowest → Lowest → Type 0
Under r low =
    ((low.latest ≡ 0) ⊎ (r.latest ≤ low.latest))
    × ((low.safe ≡ 0) ⊎ (r.safe ≤ low.safe))
    × ((low.finalized ≡ 0) ⊎ (r.finalized ≤ low.finalized))

step_Under :
    (r low : Lowest) (c : Candidate)
    → HasBlocks c
    → Under r (lower low c.1)
    → Under r low × IsBelow r c
unfolding lower
step_Under r low (be, bs) h u = ground arith

lowest_from-Under :
    (low : Lowest) (cs : List Candidate)
    → All HasBlocks cs
    → Under (lowest_from low cs) low × All (IsBelow (lowest_from low cs)) cs
unfolding lowest_from
lowest_from-Under low [] h = ((inr (omega arith), inr (omega arith), inr (omega arith)), tt)
lowest_from-Under low ((be, bs) ∷ cs) h =
    let (u, below) = lowest_from-Under (lower low bs) cs h.1 in
    let (v, here) = step_Under (lowest_from (lower low bs) cs) low (be, bs) h.0 u in
    (v, (here, below))

-- Where no candidate has a block 0, the lowest latest, safe and finalized blocks that the poller
-- computes are at most those of every candidate.
lowest_from-IsBelow :
    (cs : List Candidate) → All HasBlocks cs → All (IsBelow (lowest_from no_lowest cs)) cs
lowest_from-IsBelow cs h = (lowest_from-Under no_lowest cs h).1

-- Where one of two candidates has the latest block 0, the lowest latest block depends on the order
-- in which Go ranges over the map: it is 0 if that candidate comes last, and the other candidate's
-- block if it comes first.
lowest_from_order :
    (c d : Candidate)
    → c.1.latest_block_number ≡ 0
    → ((lowest_from no_lowest (c ∷ d ∷ [])).latest ≡ d.1.latest_block_number)
      × ((lowest_from no_lowest (d ∷ c ∷ [])).latest ≡ 0)
unfolding lowest_from lower no_lowest
lowest_from_order (be, bs) (de, ds) zero_block = ground arith
