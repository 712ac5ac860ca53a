-- ===== src/Tests/Readers.antt =====
-- A body of three bytes in pieces of two, against a limit of three.
use bsc_builder_proxyd.Base.{ℕ, ◌≡◌, refl, true, false, [], ◌∷◌, arith, length}
use bsc_builder_proxyd.Reader.{Source, read_source, whole, over_limit, read_all, read_limited}
use bsc_builder_proxyd.Reader.Whole.{fits, outcome, read_limited_lem}

abbrev pieces : Source
pieces = record { bytes = 1 ∷ 2 ∷ 3 ∷ []; burst = λ i. 2; eager_end = true }

abbrev room : ℕ → ℕ
room i = 512

read_whole : read_limited pieces room 3 ≡ whole (1 ∷ 2 ∷ 3 ∷ [])
unfolding read_limited read_all read_source
read_whole = refl

refused_late_end : read_limited (record pieces { eager_end = false }) room 3 ≡ over_limit
unfolding read_limited read_all read_source
refused_late_end = refl

read_limited_lem_example :
    read_limited pieces room 3 ≡ outcome (fits true (length pieces.bytes) 3) pieces.bytes
read_limited_lem_example = read_limited_lem pieces room 3 (λ i. omega arith) (λ i. omega arith)
