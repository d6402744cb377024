-- ===== src/Wire/Varint.antt =====
-- packages/core/src/edge/varint.ts: unsigned LEB128, seven bits a byte, lowest group first. A
-- `Uint8Array` is a list of numbers below 256, a bigint is a number, and an integer argument that may
-- be negative is a ℤ.
pub mod Groups
pub mod Encode
pub mod Decode
pub mod RoundTrip
use mathlib.Core.Logic.{dite}
use mathlib.Core.WellFounded.{Acc}
use native.Mathlib.Decide.{dec_lt}
use warren_sdk_ts.Prelude.{
  ℕ, ◌+◌, ◌*◌, ◌/◌, ◌^◌, ◌<◌, bit_and, bit_or, List, [], ◌∷◌, arith, leb, ◌==◌, if◌then◌else◌,
}
use warren_sdk_ts.Prelude.Int.{ℤ, pos, negsuc}
use warren_sdk_ts.Prelude.Order.{lt_wf}
use warren_sdk_ts.Wire.Result.{
  Result, ok, throw, negative_leb128, leb128_exceeds_64_bits, truncated_leb128,
}

pub shift_falls : (v : ℕ) → 0 < v / 128 → v / 128 < v
shift_falls v h = omega arith

-- The loop of `encodeLeb128`: `v >>= 7n` is `v / 128`, and the loop ends when that is zero.
emit_groups : (v : ℕ) → Acc ◌<◌ v → List ℕ
emit_groups v (Acc.intro _ smaller) =
    let byte = bit_and v 0x7f in
    dite (dec_lt 0 (v / 128))
      (λ more. bit_or byte 0x80 ∷ emit_groups (v / 128) (smaller (v / 128) (shift_falls v more)))
      (λ _. byte ∷ [])

unfoldable pub encode_leb128 : ℤ → Result (List ℕ)
unfolding emit_groups lt_wf dec_lt
encode_leb128 (negsuc n) = throw negative_leb128
encode_leb128 (pos v) = ok (emit_groups v (lt_wf.apply v))

pub record Leb128Decoded : Type 0 where
  pub value : ℕ
  pub length : ℕ

-- The loop of `decodeLeb128` over the bytes not yet read. `shift` is a multiple of seven.
pub decode_groups : List ℕ → ℕ → ℕ → ℕ → Result Leb128Decoded
decode_groups [] value shift length = throw truncated_leb128
decode_groups (byte ∷ input) value shift length =
    let value' = bit_or value (bit_and byte 0x7f * 2 ^ shift) in
    let length' = length + 1 in
    let rest = decode_groups input value' (shift + 7) length' in
    if bit_and byte 0x80 == 0
    then ok (record { value = value'; length = length' })
    else if leb 70 (shift + 7)
    then throw leb128_exceeds_64_bits
    else rest

unfoldable pub decode_leb128 : List ℕ → Result Leb128Decoded
unfolding decode_groups
decode_leb128 input = decode_groups input 0 0 0
