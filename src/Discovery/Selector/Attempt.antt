-- ===== src/Discovery/Selector/Attempt.antt =====
-- The mulberry32 generator and `selectExitForAttempt` of packages/core/src/discovery/selector.ts, on
-- 32-bit words. The roll is computed exactly: `rng() * total` is exact in doubles for a total below
-- 2 ^ 21, and the model is the program below that.
use Prim.Native.Nat.{bit_xor}
use Prim.Native.String.{String}
use warren_sdk_ts.Prelude.{ℕ, ◌+◌, ◌*◌, ◌/◌, ◌%◌, ◌^◌, ◌<◌, ◌≤◌, List, bit_or, arith}
use warren_sdk_ts.Discovery.Relay.{Relay}
use warren_sdk_ts.Discovery.Selector.{ExitQuery, Selected, select_exit_weighted}

abbrev pub word : ℕ
word = 2 ^ 32

-- `Math.imul`, and `x >>> k`, on the unsigned readings of 32-bit words.
abbrev pub imul : ℕ → ℕ → ℕ
imul x y = x * y % word

abbrev pub shr : ℕ → ℕ → ℕ
shr x k = x / 2 ^ k

-- The first output of `mulberry32(seed)` times 2 ^ 32: `selectExitForAttempt` draws once.
unfoldable pub mulberry32_word : ℕ → ℕ
mulberry32_word seed =
    let a = (seed % word + 0x6d2b79f5) % word in
    let t = imul (bit_xor a (shr a 15)) (bit_or 1 a) in
    let u = bit_xor ((t + imul (bit_xor t (shr t 7)) (bit_or 61 t)) % word) t in
    bit_xor u (shr u 14) % word

-- `Math.floor(rng() * total)`.
unfoldable pub attempt_draw : ℕ → ℕ → ℕ
unfolding mulberry32_word
attempt_draw seed total = mulberry32_word seed * total / word

unfoldable pub select_exit_for_attempt : (String → String) → List Relay → ExitQuery → ℕ → Selected
unfolding attempt_draw
select_exit_for_attempt lower relays query retry_attempt =
    select_exit_weighted lower relays query (attempt_draw retry_attempt)

-- The roll of an attempt is always below the total weight, so the loop ends on a relay by its test.
pub attempt_draw-lt : (seed total : ℕ) → 0 < total → attempt_draw seed total < total
unfolding attempt_draw
attempt_draw-lt seed total h = scaled (mulberry32_word seed) total (omega arith) h
  where
    product : (w t : ℕ) → w < word → w * t + t ≤ word * t
    product w t hw = grind arith

    scaled : (w t : ℕ) → w < word → 0 < t → w * t / word < t
    scaled w t hw ht = omega (arith, product w t hw)
