-- ===== src/Consensus/Group.antt =====
-- consensus_poller.go, `UpdateBackendGroupConsensus`. Go ranges over a map in an order of its own,
-- anew each time: `order n` is the order of the n-th range, and `nets n` is what the backends answer
-- during the n-th walk over the candidates. The walk down has fuel.
use bsc_builder_proxyd.Base.{
  ℕ, zero, suc, ◌+◌, ◌%◌, Bool, true, false, ◌||◌, not, List, [], ◌∷◌, String, Option, none, some,
  if◌then◌else◌, ltb, leb, ◌==◌, eqb, string_eq, filter,
}
use bsc_builder_proxyd.Backend.{Backend}
use bsc_builder_proxyd.Consensus.{ConsensusPoller, BackendState}
use bsc_builder_proxyd.Consensus.Fetch.{Net, Outcome, ok, err, crash, fetch_block}
use bsc_builder_proxyd.Consensus.Candidates.{Candidate, get_consensus_candidates}

pub record Lowest : Type 0 where
  pub latest : ℕ
  pub hash : String
  pub finalized : ℕ
  pub safe : ℕ

unfoldable pub no_lowest : Lowest
no_lowest = record { latest = 0; hash = ""; finalized = 0; safe = 0 }

-- `lowest == 0 || n < lowest`.
abbrev pub lowers : ℕ → ℕ → Bool
lowers low n = low == 0 || ltb n low

unfoldable pub lower : Lowest → BackendState → Lowest
lower low bs = record {
  latest = if lowers low.latest bs.latest_block_number then bs.latest_block_number else low.latest;
  hash = if lowers low.latest bs.latest_block_number then bs.latest_block_hash else low.hash;
  finalized =
      if lowers low.finalized bs.finalized_block_number
      then bs.finalized_block_number
      else low.finalized;
  safe = if lowers low.safe bs.safe_block_number then bs.safe_block_number else low.safe;
}

unfoldable pub lowest_from : Lowest → List Candidate → Lowest
lowest_from low [] = low
lowest_from low ((be, bs) ∷ cs) = lowest_from (lower low bs) cs

-- One walk over the candidates, at one proposed block.
pub record Walk : Type 0 where
  pub agreed : Bool
  pub hash : String
  pub broken : Bool

-- What the walk does with one answer: go on with a hash, or stop there.
pub data Verdict : Type 0 where
  agrees : String → Verdict
  differs : String → Bool → Verdict
  absent : Verdict
  panics : Verdict

unfoldable pub judge : ℕ → ℕ → String → Outcome (ℕ × String) → Verdict
judge current proposed hash err = absent
judge current proposed hash crash = panics
judge current proposed hash (ok (n, h)) =
    let proposed_hash = if eqb hash "" then h else hash in
    if not (n == proposed) || not (eqb h proposed_hash)
    then differs proposed_hash (leb n current)
    else agrees proposed_hash

-- `none` is a panic. `encode` is `hexutil.Uint64.String`.
unfoldable pub walk : Net → (ℕ → String) → ℕ → ℕ → String → Bool → List Candidate → Option Walk
walk net encode current proposed hash broken [] =
    some (record { agreed = true; hash = hash; broken = broken })
walk net encode current proposed hash broken ((be, bs) ∷ cs) =
    elim (judge current proposed hash (fetch_block net be (encode proposed))) [
      | agrees h ↦ walk net encode current proposed h broken cs
      | differs h b ↦ some (record { agreed = false; hash = h; broken = broken || b })
      | absent ↦ walk net encode current proposed hash broken cs
      | panics ↦ none
    ]

pub data Search : Type 0 where
  found : ℕ → String → Bool → Search
  panicked : Search
  out_of_fuel : Search

-- `proposedBlock -= 1` on uint64.
abbrev pub pred64 : ℕ → ℕ
pred64 p = (p + 18446744073709551615) % 18446744073709551616

-- `for !hasConsensus`, from the n-th walk on.
unfoldable pub settle :
    (ℕ → Net) → (ℕ → String) → (ℕ → List Candidate) → ℕ → ℕ → ℕ → ℕ → String → Bool → Search
settle nets encode order current zero n proposed hash broken = out_of_fuel
settle nets encode order current (suc fuel) n proposed hash broken =
    elim (walk (nets n) encode current proposed hash broken (order n)) [
      | none ↦ panicked
      | some w ↦ elim w.agreed [
        | true ↦ found proposed w.hash w.broken
        | false ↦ settle nets encode order current fuel (suc n) (pred64 proposed) "" w.broken
      ]
    ]

unfoldable pub member : List Candidate → Backend → Bool
member [] be = false
member ((b, bs) ∷ cs) be = b.id == be.id || member cs be

-- The poller after the update, and the listeners that were called.
pub record GroupUpdate : Type 0 where
  pub poller : ConsensusPoller
  pub notified : List ℕ

unfoldable pub publish : ConsensusPoller → List Candidate → Lowest → ℕ → Bool → GroupUpdate
publish cp cs low proposed broken = record {
  poller = record cp {
    tracker = record { latest = proposed; safe = low.safe; finalized = low.finalized };
    consensus_group = filter (member cs) cp.backend_group.backends;
  };
  notified = if broken then cp.listeners else [];
}

abbrev pub publish_found : ConsensusPoller → List Candidate → Lowest → Search → Option GroupUpdate
publish_found cp cs low (found proposed hash broken) = some (publish cp cs low proposed broken)
publish_found cp cs low panicked = none
publish_found cp cs low out_of_fuel = none

-- `order cs 0` is the range that looks for the lowest blocks. `none`: a panic, or no fuel left.
unfoldable pub update_backend_group_consensus :
    (ℕ → Net)
    → (ℕ → String)
    → (List Candidate → ℕ → List Candidate)
    → ℕ
    → ConsensusPoller
    → ℕ
    → Option GroupUpdate
update_backend_group_consensus nets encode order fuel cp now =
    let cs = get_consensus_candidates cp now in
    let low = lowest_from no_lowest (order cs 0) in
    if ltb 0 low.latest
    then publish_found cp cs low
        (settle nets encode (order cs) cp.tracker.latest fuel 1 low.latest low.hash false)
    else some (publish cp cs low low.latest false)
