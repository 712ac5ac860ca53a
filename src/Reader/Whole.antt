-- ===== src/Reader/Whole.antt =====
-- Which bodies are read whole through a limit.
use Prim.Native.Nat.{min}
use mathlib.Core.Path.{ap₂}
use mathlib.Core.List.{append_assoc}
use bsc_builder_proxyd.Base.{
  ℕ, zero, suc, ◌-◌, ◌≤◌, ◌<◌, ◌≡◌, refl, sym, ◌∙◌, ap, inl, inr, Bool, true, false, not, ◌&&◌,
  ◌||◌, List, [], ◌∷◌, ◌++◌, if◌then◌else◌, ◌==◌, length, take, drop, is_empty, arith, ltb, leb,
  Bool-cases, take-append-drop, length-take, length-drop,
}
use bsc_builder_proxyd.Reader.{Source, read_source, Body, whole, over_limit, read_all, read_limited}

-- Whether a body of a length fits: one of exactly the limit does where its end comes with its last bytes.
abbrev pub fits : Bool → ℕ → ℕ → Bool
fits eager len n = if eager then not (n == 0) && leb len n else ltb len n

abbrev pub outcome : Bool → List ℕ → Body
outcome true bytes = whole bytes
outcome false bytes = over_limit

is_empty-length : (xs : List ℕ) → is_empty xs ≡ (length xs == 0)
is_empty-length [] = refl
is_empty-length (x ∷ xs) = ground arith

take_all : (n : ℕ) (xs : List ℕ) → length xs ≤ n → take n xs ≡ xs
take_all zero [] h = refl
take_all (suc n) [] h = refl
take_all zero (x ∷ xs) h = absurd (omega arith)
take_all (suc n) (x ∷ xs) h = ap (◌∷◌ x) (take_all n xs (omega arith))

fits_zero : (eager : Bool) (len : ℕ) → fits eager len 0 ≡ false
fits_zero true len = refl
fits_zero false len = ground arith

-- One reading of `m` bytes that is not the last decides nothing.
fits_step :
    (eager : Bool) (len n m : ℕ)
    → 0 < m
    → m ≤ n
    → 0 < len
    → (eager ≡ true → m < len)
    → fits eager (len - m) (n - min m len) ≡ fits eager len n
fits_step true len n m h k l more = ground (arith, more refl)
fits_step false len n m h k l more = ground arith

ended :
    (eager : Bool) (m n : ℕ) (bytes : List ℕ)
    → 0 < n
    → m ≤ n
    → (is_empty bytes || (eager && is_empty (drop m bytes))) ≡ true
    → (length bytes ≤ m) × (fits eager (length bytes) n ≡ true)
ended true m n bytes h k e =
    ground (arith, is_empty-length bytes, is_empty-length (drop m bytes), length-drop m bytes)
ended false m n bytes h k e = ground (arith, is_empty-length bytes)

not_ended :
    (eager : Bool) (m : ℕ) (bytes : List ℕ)
    → (is_empty bytes || (eager && is_empty (drop m bytes))) ≡ false
    → (0 < length bytes) × (eager ≡ true → m < length bytes)
not_ended true m bytes e =
    ground (arith, is_empty-length bytes, is_empty-length (drop m bytes), length-drop m bytes)
not_ended false m bytes e = (ground (arith, is_empty-length bytes), λ h. absurd (cc))

module _ (src : Source) (size : ℕ → ℕ) (room : (i : ℕ) → 0 < size i)
    (moves : (i : ℕ) → 0 < src.burst i) where
  read_all_lem :
      (fuel i n : ℕ) (acc bytes : List ℕ)
      → length bytes < fuel
      → read_all src size fuel i n acc bytes
        ≡ outcome (fits src.eager_end (length bytes) n) (acc ++ bytes)
  unfolding read_all read_source
  read_all_lem zero i n acc bytes h = absurd (omega arith)
  read_all_lem (suc fuel) i zero acc bytes h =
      sym (ap (λ b. outcome b (acc ++ bytes)) (fits_zero src.eager_end (length bytes)))
  read_all_lem (suc fuel) i (suc n) acc bytes h =
      let m = min (min (size i) (suc n)) (src.burst i) in
      let first : 0 < m = omega (arith, room i, moves i) in
      let most : m ≤ suc n = omega arith in
      let go_on : (suc n == 0) ≡ false = ground arith in
      elim (Bool-cases (is_empty bytes || (src.eager_end && is_empty (drop m bytes)))) [
        | inl x ↦
            let (all, enough) = ended src.eager_end m (suc n) bytes (omega arith) most x in
            let last : read_all src size (suc fuel) i (suc n) acc bytes
                ≡ whole (acc ++ take m bytes) =
              rw (go_on, read_all) (rw (x, read_all) refl) in
            last
            ∙ ap (λ b. whole (acc ++ b)) (take_all m bytes all)
            ∙ ap (λ b. outcome b (acc ++ bytes)) (sym enough)
        | inr x ↦
            let (some_left, more) = not_ended src.eager_end m bytes x in
            let next : read_all src size (suc fuel) i (suc n) acc bytes
                ≡ read_all src size fuel (suc i) (suc n - length (take m bytes))
                    (acc ++ take m bytes) (drop m bytes) =
              rw (go_on, read_all) (rw (x, read_all) refl) in
            next
            ∙ read_all_lem fuel (suc i) (suc n - length (take m bytes)) (acc ++ take m bytes)
                (drop m bytes) (omega (arith, length-drop m bytes))
            ∙ ap₂ outcome
                (rw (length-drop m bytes, length-take m bytes)
                  (fits_step src.eager_end (length bytes) (suc n) m first most some_left more))
                (append_assoc acc (take m bytes) (drop m bytes)
                  ∙ ap (◌++◌ acc) (take-append-drop m bytes))
      ]

-- Through a limit on its size, whatever room there is at each reading and in whatever pieces the
-- reader hands its bytes out: a body shorter than the limit is read whole, a longer one is over the
-- limit, and one of exactly the limit is read whole where it is not empty and its end comes with
-- its last bytes, and is over the limit otherwise.
pub read_limited_lem :
    (src : Source) (size : ℕ → ℕ) (n : ℕ)
    → ((i : ℕ) → 0 < size i)
    → ((i : ℕ) → 0 < src.burst i)
    → read_limited src size n ≡ outcome (fits src.eager_end (length src.bytes) n) src.bytes
unfolding read_limited
read_limited_lem src size n room moves =
    read_all_lem src size room moves (suc (length src.bytes)) 0 n [] src.bytes (omega arith)
