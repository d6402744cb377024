-- ===== src/Wire/Varint/RoundTrip.antt =====
-- `encodeLeb128` against `decodeLeb128`.
use warren_sdk_ts.Prelude.{ℕ, ◌^◌, ◌≤◌, ◌<◌, ◌≡◌, ap, sym, ◌∙◌, ◌↔◌, List, ◌++◌, arith, length}
use warren_sdk_ts.Prelude.Int.{pos}
use warren_sdk_ts.Wire.Result.{ok, ok-injective}
use warren_sdk_ts.Wire.Varint.{encode_leb128, decode_leb128}
use warren_sdk_ts.Wire.Varint.Groups.{IsLeb, IsShortLeb, IsMinimal, leb_value}
use warren_sdk_ts.Wire.Varint.Encode.{
  emitted, encode_leb128-pos, emitted-IsLeb, leb_value-emitted, length-emitted, emitted-IsMinimal,
  emitted-leb_value,
}
use warren_sdk_ts.Wire.Varint.Decode.{decode-IsLeb}

pub length-emitted_ten : (v : ℕ) → v < 2 ^ 70 → length (emitted v) ≤ 10
length-emitted_ten v h = length-emitted 9 v (omega arith)

pub emitted-IsShortLeb : (v : ℕ) → v < 2 ^ 70 → IsShortLeb (emitted v)
emitted-IsShortLeb v h = record { leb = emitted-IsLeb v; short = length-emitted_ten v h }

pub decode-emitted :
    (v : ℕ) (rest : List ℕ)
    → v < 2 ^ 70
    → decode_leb128 (emitted v ++ rest) ≡ ok (record { value = v; length = length (emitted v) })
decode-emitted v rest h =
    decode-IsLeb (emitted v) rest (emitted-IsLeb v) (length-emitted_ten v h)
    ∙ ap (λ t. ok (record { value = t; length = length (emitted v) })) (leb_value-emitted v)

-- Every integer from 0 below 2 ^ 70 is encoded, in at most ten bytes, and decodes to itself with the
-- length of its encoding, whatever bytes follow.
pub decode-encode_leb128 :
    (v : ℕ) (rest : List ℕ)
    → v < 2 ^ 70
    → (bs : List ℕ) × (encode_leb128 (pos v) ≡ ok bs)
      × (length bs ≤ 10)
      × (decode_leb128 (bs ++ rest) ≡ ok (record { value = v; length = length bs }))
decode-encode_leb128 v rest h =
    (emitted v, encode_leb128-pos v, length-emitted_ten v h, decode-emitted v rest h)

-- `encodeLeb128` of an integer from 0 on returns exactly the LEB128 string of that value whose last
-- byte is not zero or that is the one byte zero.
pub encode_leb128_iff :
    (v : ℕ) (bs : List ℕ)
    → (encode_leb128 (pos v) ≡ ok bs) ↔ (IsLeb bs × IsMinimal bs × (leb_value bs ≡ v))
encode_leb128_iff v bs = (
  λ e.
      let same : emitted v ≡ bs = ok-injective (emitted v) bs (sym (encode_leb128-pos v) ∙ e) in
      rw (← same) (emitted-IsLeb v, emitted-IsMinimal v, leb_value-emitted v),
  λ h. encode_leb128-pos v ∙ ap ok (ap emitted (sym h.2) ∙ emitted-leb_value bs h.0 h.1),
)
