-- ===== src/Wire/Number.antt =====
-- JavaScript's `Number(b)` of a bigint `b` that is not negative: exact below 2 ^ 53, and above that
-- the nearest integer with 53 significant bits, a tie going to the even one. Bigints of 2 ^ 1024 and
-- more, which become Infinity, are outside the model: the decoders call it below 2 ^ 70.
use warren_sdk_ts.Prelude.{
  ℕ, zero, suc, ◌+◌, ◌-◌, ◌*◌, ◌/◌, ◌%◌, ◌^◌, ◌<◌, ◌≡◌, refl, ltb, lt→ltb, ◌==◌, ◌&&◌, ◌||◌,
  if◌then◌else◌,
}

abbrev pub max_exact : ℕ
max_exact = 2 ^ 53

-- How many low bits do not fit, with room for that many rounds.
excess_bits : ℕ → ℕ → ℕ
excess_bits zero b = 0
excess_bits (suc room) b =
    let more = excess_bits room (b / 2) in if ltb b max_exact then 0 else suc more

-- `b` with its last `e` bits rounded away.
round_bits : ℕ → ℕ → ℕ
round_bits e b =
    let unit = 2 ^ e in
    let quotient = b / unit in
    let twice = 2 * (b % unit) in
    if ltb twice unit || (twice == unit && quotient % 2 == 0)
    then quotient * unit
    else (quotient + 1) * unit

pub to_number : ℕ → ℕ
to_number b = if ltb b max_exact then b else round_bits (excess_bits 1024 b) b

pub to_number_exact : (b : ℕ) → b < max_exact → to_number b ≡ b
unfolding to_number
to_number_exact b h = rw (lt→ltb b max_exact h)

-- Two bigints with one number: 2 ^ 53 and 2 ^ 53 + 1; the tie at 2 ^ 53 + 3 goes up.
to_number_ties :
    (to_number 9007199254740993 ≡ 9007199254740992)
    × (to_number 9007199254740995 ≡ 9007199254740996)
    × (to_number (2 ^ 70 - 1) ≡ 2 ^ 70)
unfolding to_number excess_bits round_bits
to_number_ties = (refl, refl, refl)
