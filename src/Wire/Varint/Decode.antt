-- ===== src/Wire/Varint/Decode.antt =====
-- `decodeLeb128` on any bytes: it answers by the first byte without the top bit among the first ten.
use native.Mathlib.Decide.{dec_lt}
use native.Mathlib.Numerals.{towards_suc}
use warren_sdk_ts.Prelude.{
  ℕ, zero, suc, ◌+◌, ◌*◌, ◌%◌, ◌^◌, ◌≤◌, ◌<◌, bit_and, bit_or, ◌≡◌, refl, ap, ◌∙◌, List, [], ◌∷◌,
  ◌++◌, arith, length, All,
}
use warren_sdk_ts.Prelude.Bits.{
  bit_and-low_seven, bit_or-shifted, bit_and-top_bit_clear, bit_and-top_bit_set,
}
use warren_sdk_ts.Wire.Result.{ok, throw, leb128_exceeds_64_bits, truncated_leb128}
use warren_sdk_ts.Wire.Varint.{decode_groups, decode_leb128}
use warren_sdk_ts.Wire.Varint.Groups.{IsByte, IsLeb, IsLeb-cons, IsOpen, leb_value}

joined :
    (b value shift : ℕ)
    → value < 2 ^ shift
    → bit_or value (bit_and b 0x7f * 2 ^ shift) ≡ value + b % 128 * 2 ^ shift
joined b value shift h =
    bit_or-shifted shift value (bit_and b 0x7f) h
    ∙ ap (λ t. value + t * 2 ^ shift) (bit_and-low_seven b)

-- One round of the loop, by the kind of the byte.
last_byte :
    (b value shift len : ℕ) (rest : List ℕ)
    → b < 128
    → value < 2 ^ shift
    → decode_groups (b ∷ rest) value shift len
      ≡ ok (record { value = value + b % 128 * 2 ^ shift; length = len + 1 })
unfolding decode_groups
last_byte b value shift len rest h small =
    rw (bit_and-top_bit_clear b h, joined b value shift small)

open_byte :
    (b value shift len : ℕ) (rest : List ℕ)
    → 128 ≤ b
    → b < 256
    → value < 2 ^ shift
    → shift + 7 < 70
    → decode_groups (b ∷ rest) value shift len
      ≡ decode_groups rest (value + b % 128 * 2 ^ shift) (shift + 7) (len + 1)
unfolding decode_groups
open_byte b value shift len rest lo hi small more =
    rw (bit_and-top_bit_set b lo hi, joined b value shift small) (ground arith)

tenth_byte :
    (b value shift len : ℕ) (rest : List ℕ)
    → 128 ≤ b
    → b < 256
    → 70 ≤ shift + 7
    → decode_groups (b ∷ rest) value shift len ≡ throw leb128_exceeds_64_bits
unfolding decode_groups
tenth_byte b value shift len rest lo hi end = rw (bit_and-top_bit_set b lo hi) (ground arith)

next_shift : (s : ℕ) → 2 ^ (s + 7) ≡ 128 * 2 ^ s
next_shift s = simp towards_suc (omega arith)

next_small : (b value s : ℕ) → value < 2 ^ s → value + b % 128 * 2 ^ s < 2 ^ (s + 7)
next_small b value s h = rw next_shift (grind arith)

-- The value after the bytes `bs`, read at `shift`.
value_step :
    (b value v s : ℕ)
    → value + b % 128 * 2 ^ s + v * 2 ^ (s + 7) ≡ value + (b % 128 + 128 * v) * 2 ^ s
value_step b value v s = rw next_shift (grind arith)

decode_groups-IsLeb :
    (bs rest : List ℕ) (value shift len j : ℕ)
    → IsLeb bs
    → value < 2 ^ shift
    → shift ≡ 7 * j
    → j + length bs ≤ 10
    → decode_groups (bs ++ rest) value shift len
      ≡ ok (record { value = value + leb_value bs * 2 ^ shift; length = len + length bs })
unfolding leb_value
decode_groups-IsLeb [] rest value shift len j h small hs hj = absurd h
decode_groups-IsLeb (b ∷ []) rest value shift len j h small hs hj =
    let single : b % 128 + 128 * 0 ≡ b % 128 = omega arith in
    let one : suc 0 ≡ 1 = refl in rw (last_byte b value shift len rest h small, single) refl
decode_groups-IsLeb (b ∷ c ∷ bs) rest value shift len j (lo, hi, h) small hs hj =
    let shorter : len + 1 + length (c ∷ bs) ≡ len + length (b ∷ c ∷ bs) = omega arith in
    rw (
      open_byte b value shift len (c ∷ bs ++ rest) lo hi small (omega arith),
      decode_groups-IsLeb (c ∷ bs) rest (value + b % 128 * 2 ^ shift) (shift + 7) (len + 1) (j + 1)
          h (next_small b value shift small) (omega arith) (omega arith),
      value_step b value (leb_value (c ∷ bs)) shift,
      shorter,
    )

-- The two ways to fail.
decode_groups-IsOpen :
    (bs : List ℕ) (value shift len j : ℕ)
    → IsOpen bs
    → value < 2 ^ shift
    → shift ≡ 7 * j
    → j + length bs < 10
    → decode_groups bs value shift len ≡ throw truncated_leb128
decode_groups-IsOpen [] value shift len j h small hs hj = unfold decode_groups in refl
decode_groups-IsOpen (b ∷ bs) value shift len j ((lo, hi), h) small hs hj =
    rw (open_byte b value shift len bs lo hi small (omega arith)) (
      decode_groups-IsOpen bs _ (shift + 7) (len + 1) (j + 1) h (next_small b value shift small)
        (omega arith) (omega arith))

decode_groups_exceeds :
    (bs rest : List ℕ) (value shift len j : ℕ)
    → IsOpen bs
    → value < 2 ^ shift
    → shift ≡ 7 * j
    → j + length bs ≡ 10
    → j < 10
    → decode_groups (bs ++ rest) value shift len ≡ throw leb128_exceeds_64_bits
decode_groups_exceeds [] rest value shift len j h small hs hj lt = absurd (omega arith)
decode_groups_exceeds (b ∷ bs) rest value shift len j ((lo, hi), h) small hs hj lt =
    elim (dec_lt (j + 1) 10) [
      | yes more ↦ rw (open_byte b value shift len (bs ++ rest) lo hi small (omega arith)) (
          decode_groups_exceeds bs rest _ (shift + 7) (len + 1) (j + 1) h
            (next_small b value shift small) (omega arith) (omega arith) more)
      | no last ↦ tenth_byte b value shift len (bs ++ rest) lo hi (omega arith)
    ]

-- Every byte string is one of three: it starts with a LEB128 string of at most `k` bytes, or with `k`
-- bytes that have the top bit, or it is shorter than `k` bytes and all have it.
pub data Front (k : ℕ) (input : List ℕ) : Type 0 where
  complete : (bs rest : List ℕ) → input ≡ bs ++ rest → IsLeb bs → length bs ≤ k → Front k input
  unfinished : IsOpen input → length input < k → Front k input
  overlong : (bs rest : List ℕ) → input ≡ bs ++ rest → IsOpen bs → length bs ≡ k → Front k input

front_cons :
    (k b : ℕ) (input : List ℕ) → 128 ≤ b → b < 256 → Front k input → Front (suc k) (b ∷ input)
front_cons k b input lo hi (unfinished h short) = unfinished ((lo, hi), h) (omega arith)
front_cons k b input lo hi (complete bs rest e h short) =
    complete (b ∷ bs) rest (ap (λ t. b ∷ t) e) (IsLeb-cons b bs lo hi h) (omega arith)
front_cons k b input lo hi (overlong bs rest e h full) =
    overlong (b ∷ bs) rest (ap (λ t. b ∷ t) e) ((lo, hi), h) (omega arith)

front : (k : ℕ) (input : List ℕ) → All IsByte input → Front k input
front zero input h = overlong [] input refl tt refl
front (suc k) [] h = unfinished tt (omega arith)
front (suc k) (b ∷ input) (hb, h) = elim (dec_lt b 128) [
  | yes small ↦ complete (b ∷ []) input refl small (omega arith)
  | no large ↦ front_cons k b input (omega arith) hb (front k input h)
]

pub decode-IsLeb :
    (bs rest : List ℕ)
    → IsLeb bs
    → length bs ≤ 10
    → decode_leb128 (bs ++ rest) ≡ ok (record { value = leb_value bs; length = length bs })
unfolding decode_leb128
decode-IsLeb bs rest h short =
    let value_eq : 0 + leb_value bs * 2 ^ 0 ≡ leb_value bs = omega arith in
    let length_eq : 0 + length bs ≡ length bs = omega arith in
    rw (decode_groups-IsLeb bs rest 0 0 0 0 h (omega arith) refl (omega arith), value_eq, length_eq)

-- What `decodeLeb128` answers by the front of its input.
pub data Answer (input : List ℕ) : Type 0 where
  decoded :
      (bs rest : List ℕ)
      → input ≡ bs ++ rest
      → IsLeb bs
      → length bs ≤ 10
      → decode_leb128 input ≡ ok (record { value = leb_value bs; length = length bs })
      → Answer input
  ends_early :
      IsOpen input → length input < 10 → decode_leb128 input ≡ throw truncated_leb128 → Answer input
  goes_on :
      (bs rest : List ℕ)
      → input ≡ bs ++ rest
      → IsOpen bs
      → length bs ≡ 10
      → decode_leb128 input ≡ throw leb128_exceeds_64_bits
      → Answer input

answer : (input : List ℕ) → Front 10 input → Answer input
unfolding decode_leb128
answer input (complete bs rest e h short) =
    decoded bs rest e h short (rw e (decode-IsLeb bs rest h short))
answer input (unfinished h short) =
    ends_early h short (decode_groups-IsOpen input 0 0 0 0 h (omega arith) refl (omega arith))
answer input (overlong bs rest e h full) =
    goes_on bs rest e h full (
      rw e (decode_groups_exceeds bs rest 0 0 0 0 h (omega arith) refl (omega arith) (omega arith)))

-- On every byte string `decodeLeb128` answers, and its answer is fixed by the first byte without the
-- top bit: if that is among the first ten bytes it returns the base-128 value of the string up to it
-- and that string's length, if there is none in fewer than ten bytes it throws for truncation, and if
-- the first ten bytes all have the top bit it throws for an integer that is too long.
pub decode_leb128_answer : (input : List ℕ) → All IsByte input → Answer input
decode_leb128_answer input h = answer input (front 10 input h)
