-- ===== src/Reader.antt =====
-- reader.go: the LimitedReader, as `io.ReadAll` reads through it. The reader below it is the bytes that it
-- still has and its way of handing them out: at its i-th reading at most `burst i` of them, and the
-- end of the file with the last ones or at a further reading. `size i` is the room that ReadAll has at
-- its i-th reading. A limit that is negative acts as 0.
pub mod Whole
use Prim.Native.Nat.{min}
use bsc_builder_proxyd.Base.{
  ℕ, zero, suc, ◌-◌, Bool, true, false, ◌&&◌, ◌||◌, List, [], ◌∷◌, ◌++◌, if◌then◌else◌, ◌==◌,
  length, take, drop, is_empty,
}

pub record Source : Type 0 where
  pub bytes : List ℕ
  pub burst : ℕ → ℕ
  pub eager_end : Bool

-- The bytes of one reading, what is left, and whether the end was reported.
pub record Reading : Type 0 where
  pub got : List ℕ
  pub left : List ℕ
  pub at_end : Bool

unfoldable pub read_source : Source → ℕ → List ℕ → ℕ → Reading
read_source src i bytes room =
    let n = min room (src.burst i) in
    record {
      got = take n bytes;
      left = drop n bytes;
      at_end = is_empty bytes || (src.eager_end && is_empty (drop n bytes));
    }

pub data Body : Type 0 where
  whole : List ℕ → Body
  over_limit : Body
  unfinished : Body

-- `LimitedReader.Read` in the loop of ReadAll: `n` is the field N.
unfoldable pub read_all : Source → (ℕ → ℕ) → ℕ → ℕ → ℕ → List ℕ → List ℕ → Body
read_all src size zero i n acc bytes = unfinished
read_all src size (suc fuel) i n acc bytes = elim (n == 0) [
  | true ↦ over_limit
  | false ↦
      let r = read_source src i bytes (min (size i) n) in
      elim r.at_end [
        | true ↦ whole (acc ++ r.got)
        | false ↦ read_all src size fuel (suc i) (n - length r.got) (acc ++ r.got) r.left
      ]
]

unfoldable pub read_limited : Source → (ℕ → ℕ) → ℕ → Body
read_limited src size n = read_all src size (suc (length src.bytes)) 0 n [] src.bytes
