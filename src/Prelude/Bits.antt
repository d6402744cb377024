-- ===== src/Prelude/Bits.antt =====
-- Masks and disjoint unions of bits as arithmetic, for the `&`, `|`, `<<` and `>>` of the byte formats.
use Prim.Native.Nat.{
  ℕ, zero, suc, ◌+◌, ◌*◌, ◌/◌, ◌%◌, ◌^◌, ◌≤◌, ◌<◌, min, max, bit_and, bit_or, digits,
  bit_and-bitwise, bit_or-bitwise,
}
use mathlib.Core.Path.{◌≡◌, refl}
use mathlib.Core.Bool.{Bool, true, ◌&&◌}
use native.Mathlib.Omega.{arith}
use native.Mathlib.Nat.{pow-suc}
use warren_sdk_ts.Prelude.Tests.{◌==◌, ltb}

-- Over a small range, check every value by evaluation.
unfoldable pub holds_below : ℕ → (ℕ → Bool) → Bool
holds_below zero p = true
holds_below (suc n) p = p n && holds_below n p

pub holds_below-lt : (n : ℕ) (p : ℕ → Bool) (x : ℕ) → holds_below n p ≡ true → x < n → p x ≡ true
unfolding holds_below
holds_below-lt zero p x h lt = absurd (omega arith)
holds_below-lt (suc n) p x h lt = ground (arith, holds_below-lt n p x)

-- `b & 0x80` is zero exactly below 128.
top_bit_table :
    holds_below 256
      (λ b. elim (ltb b 128) [ true ↦ bit_and b 0x80 == 0 | _ ↦ bit_and b 0x80 == 128 ])
    ≡ true
unfolding holds_below
top_bit_table = refl

pub bit_and-top_bit_clear : (b : ℕ) → b < 128 → bit_and b 0x80 ≡ 0
bit_and-top_bit_clear b h = ground (arith, holds_below-lt 256 _ b top_bit_table)

pub bit_and-top_bit_set : (b : ℕ) → 128 ≤ b → b < 256 → bit_and b 0x80 ≡ 128
bit_and-top_bit_set b h k = ground (arith, holds_below-lt 256 _ b top_bit_table)

double : (g s : ℕ) → g * 2 ^ suc s ≡ 2 * (g * 2 ^ s)
double g s = rw pow-suc (grind arith)

-- `a | g << s` adds where `a` has no bit from `s` on.
or_shifted : (n s a g : ℕ) → a ≤ n → a < 2 ^ s → digits (λ b. b) max n a (g * 2 ^ s) ≡ a + g * 2 ^ s
or_shifted zero s a g le lt = omega arith
or_shifted (suc n) s zero g le lt = omega arith
or_shifted (suc n) zero (suc a) g le lt = absurd (omega arith)
or_shifted (suc n) (suc s) (suc a) g le lt =
    let half : 2 * (g * 2 ^ s) / 2 ≡ g * 2 ^ s = omega arith in
    rw (double, half)
      (omega (arith, or_shifted n s (suc a / 2) g (omega arith) (omega (arith, pow-suc 2 s))))

pub bit_or-shifted : (s a g : ℕ) → a < 2 ^ s → bit_or a (g * 2 ^ s) ≡ a + g * 2 ^ s
bit_or-shifted s a g h =
    omega (arith, bit_or-bitwise a (g * 2 ^ s), or_shifted a s a g (omega arith) h)

and_zero : (n a : ℕ) → digits (λ b. zero) min n a 0 ≡ 0
and_zero zero a = refl
and_zero (suc n) zero = refl
and_zero (suc n) (suc a) = omega (arith, and_zero n (suc a / 2))

-- `a & (2 ^ k - 1)` keeps the remainder by 2 ^ k.
and_mask :
    (k n a q r m : ℕ)
    → a ≡ q * 2 ^ k + r
    → r < 2 ^ k
    → m + 1 ≡ 2 ^ k
    → a ≤ n
    → digits (λ b. zero) min n a m ≡ r
and_mask zero n a q r m e lt mask le =
    let m0 : m ≡ 0 = omega arith in rw m0 (omega (arith, and_zero n a))
and_mask (suc k) zero a q r m e lt mask le = omega arith
and_mask (suc k) (suc n) zero q r m e lt mask le = omega arith
and_mask (suc k) (suc n) (suc a) q r m e lt mask le = omega (
  arith,
  and_mask k n (suc a / 2) q (r / 2) (m / 2) (omega (arith, double q k))
      (omega (arith, pow-suc 2 k)) (omega (arith, pow-suc 2 k)) (omega arith),
  pow-suc 2 k,
  double q k,
)

pub bit_and-low_seven : (v : ℕ) → bit_and v 0x7f ≡ v % 128
bit_and-low_seven v = omega (
  arith,
  bit_and-bitwise v 0x7f,
  and_mask 7 v v (v / 128) (v % 128) 127 (omega arith) (omega arith) refl (omega arith),
)
