-- ===== src/Wire/Varint/Encode.antt =====
-- `encodeLeb128` writes the shortest LEB128 string of its argument.
use mathlib.Core.Logic.{dif_pos, dif_neg}
use mathlib.Core.WellFounded.{Acc}
use native.Mathlib.Decide.{dec_lt}
use warren_sdk_ts.Prelude.{
  ℕ, zero, suc, ◌+◌, ◌/◌, ◌%◌, ◌^◌, ◌≤◌, ◌<◌, bit_and, bit_or, ◌≡◌, refl, ◌∙◌, inl, inr, List, [],
  ◌∷◌, arith, length,
}
use warren_sdk_ts.Prelude.Bits.{bit_and-low_seven, bit_or-shifted}
use warren_sdk_ts.Prelude.Int.{pos}
use warren_sdk_ts.Prelude.Order.{lt_wf}
use warren_sdk_ts.Wire.Result.{ok}
use native.Mathlib.Nat.{pow-suc}
use native.Mathlib.Bridge.{le_prop}
use warren_sdk_ts.Wire.Varint.{emit_groups, encode_leb128, shift_falls}
use warren_sdk_ts.Wire.Varint.Groups.{
  IsLeb, IsLeb-cons, EndsNonzero, IsMinimal, leb_value, leb_value_pos,
}

continued_byte : (v : ℕ) → bit_or (bit_and v 0x7f) 0x80 ≡ v % 128 + 128
continued_byte v = omega (
  arith,
  bit_or-shifted 7 (bit_and v 0x7f) 1 (omega (arith, bit_and-low_seven v)),
  bit_and-low_seven v,
)

emit_last : (v : ℕ) (w : Acc ◌<◌ v) → v < 128 → emit_groups v w ≡ v ∷ []
unfolding emit_groups
emit_last v (Acc.intro _ smaller) h =
    let small : ¬ (0 < v / 128) = omega arith in
    rw (dif_neg _ small) (ground (arith, bit_and-low_seven v))

emit_more :
    (v : ℕ) (w : Acc ◌<◌ v)
    → 128 ≤ v
    → (w' : Acc ◌<◌ (v / 128)) × (emit_groups v w ≡ (v % 128 + 128) ∷ emit_groups (v / 128) w')
unfolding emit_groups
emit_more v (Acc.intro _ smaller) h =
    let large : 0 < v / 128 = omega arith in
    (
      smaller (v / 128) (shift_falls v large),
      rw (dif_pos (dec_lt 0 (v / 128)) le_prop large, continued_byte v),
    )

EndsNonzero-cons : (b : ℕ) (bs : List ℕ) → EndsNonzero bs → EndsNonzero (b ∷ bs)
EndsNonzero-cons b [] h = absurd h
EndsNonzero-cons b (c ∷ bs) h = h

-- What the loop writes for `v`.
record Encodes (v : ℕ) (bs : List ℕ) : Type 0 where
  leb : IsLeb bs
  value : leb_value bs ≡ v
  ends : 0 < v → EndsNonzero bs

emit-Encodes : (k v : ℕ) (w : Acc ◌<◌ v) → v < k → Encodes v (emit_groups v w)
unfolding leb_value
emit-Encodes zero v w h = absurd (omega arith)
emit-Encodes (suc k) v w h = elim (dec_lt v 128) [
  | yes small ↦
      rw (emit_last v w small) (record { leb = small; value = omega arith; ends = λ p. p })
  | no large ↦
      let (w', step) = emit_more v w (omega arith) in
      let ih = emit-Encodes k (v / 128) w' (omega arith) in
      rw step (record {
        leb = IsLeb-cons (v % 128 + 128) _ (omega arith) (omega arith) ih.leb;
        value = omega (arith, ih.value);
        ends = λ p.
            EndsNonzero-cons (v % 128 + 128) (emit_groups (v / 128) w') (ih.ends (omega arith));
      })
]

length-emit : (k v : ℕ) (w : Acc ◌<◌ v) → v < 128 ^ suc k → length (emit_groups v w) ≤ suc k
length-emit zero v w h = rw (emit_last v w (omega arith)) (omega arith)
length-emit (suc k) v w h = elim (dec_lt v 128) [
  | yes small ↦ rw (emit_last v w small) (omega arith)
  | no large ↦
      let (w', step) = emit_more v w (omega arith) in
      rw step (omega (arith, length-emit k (v / 128) w' (omega (arith, pow-suc 128 (suc k)))))
]

-- What `encode_leb128` returns on a number that is not negative.
pub emitted : ℕ → List ℕ
emitted v = emit_groups v (lt_wf.apply v)

pub encode_leb128-pos : (v : ℕ) → encode_leb128 (pos v) ≡ ok (emitted v)
unfolding encode_leb128 emitted
encode_leb128-pos v = refl

pub emitted-IsLeb : (v : ℕ) → IsLeb (emitted v)
unfolding emitted
emitted-IsLeb v = (emit-Encodes (suc v) v _ (omega arith)).leb

pub leb_value-emitted : (v : ℕ) → leb_value (emitted v) ≡ v
unfolding emitted
leb_value-emitted v = (emit-Encodes (suc v) v _ (omega arith)).value

pub emitted-IsMinimal : (v : ℕ) → IsMinimal (emitted v)
unfolding emitted
emitted-IsMinimal v = elim (dec_lt 0 v) [
  | yes p ↦ inl ((emit-Encodes (suc v) v _ (omega arith)).ends p)
  | no p ↦ let zero_v : v ≡ 0 = omega arith in inr (rw zero_v (emit_last 0 _ (omega arith)))
]

pub length-emitted : (k v : ℕ) → v < 128 ^ suc k → length (emitted v) ≤ suc k
unfolding emitted
length-emitted k v h = length-emit k v _ h

emit_unique :
    (v : ℕ) (w : Acc ◌<◌ v) (bs : List ℕ)
    → IsLeb bs
    → EndsNonzero bs
    → leb_value bs ≡ v
    → emit_groups v w ≡ bs
unfolding leb_value
emit_unique v w [] h m e = absurd h
emit_unique v w (b ∷ []) h m e =
    let same : v ≡ b = omega arith in emit_last v w (omega arith) ∙ rw same
emit_unique v w (b ∷ c ∷ bs) (lo, hi, h) m e =
    let (w', step) = emit_more v w (omega (arith, leb_value_pos (c ∷ bs) h m)) in
    let low : v % 128 + 128 ≡ b = omega arith in
    step ∙ rw (low, emit_unique (v / 128) w' (c ∷ bs) h m (omega arith))

-- A minimal LEB128 string is what the encoder writes for its value.
pub emitted-leb_value : (bs : List ℕ) → IsLeb bs → IsMinimal bs → emitted (leb_value bs) ≡ bs
unfolding emitted leb_value
emitted-leb_value bs h (inl m) = emit_unique (leb_value bs) _ bs h m refl
emitted-leb_value bs h (inr e) = rw e (emit_last 0 _ (omega arith))

-- A number below 128 is one byte.
pub emitted-small : (v : ℕ) → v < 128 → emitted v ≡ v ∷ []
unfolding emitted
emitted-small v h = emit_last v _ h
