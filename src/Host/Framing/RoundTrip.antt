-- ===== src/Host/Framing/RoundTrip.antt =====
-- `encodeNativeFrame` against `NativeFrameDecoder`.
use warren_sdk_ts.Prelude.{
  ℕ, ◌<◌, ◌≡◌, refl, sym, ◌∙◌, inl, inr, List, [], ◌∷◌, ◌++◌, append-nil, Option, some, leb,
  Bool-cases, arith, length, take, drop, take-append, drop-append, drop-drop,
}
use warren_sdk_ts.Host.Framing.{
  u32_le, read_u32_le, max_native_frame_bytes, encode_native_frame, frame, next, returned, drain,
  push,
}
use warren_sdk_ts.Host.Framing.Chunks.{IsFramed, IsFramed-next, next_nil}

read_u32_le-u32_le :
    (n : ℕ) (bytes : List ℕ) → n < max_native_frame_bytes → read_u32_le (u32_le n ++ bytes) ≡ n
unfolding read_u32_le
read_u32_le-u32_le n bytes h = omega arith

take_all : (xs : List ℕ) → take (length xs) xs ≡ xs
take_all xs = let h : take (length xs) (xs ++ []) ≡ xs = take-append xs [] in rw append-nil at h

drop_all : (xs : List ℕ) → drop (length xs) xs ≡ []
drop_all xs = let h : drop (length xs) (xs ++ []) ≡ [] = drop-append xs [] in rw append-nil at h

framed :
    (json : List ℕ)
    → length json < max_native_frame_bytes
    → IsFramed (u32_le (length json) ++ json) json []
framed json h =
    let size : read_u32_le (u32_le (length json) ++ json) ≡ length json =
      read_u32_le-u32_le (length json) json h in
    record {
      prefix = omega arith;
      under_cap = rw size (omega arith);
      whole = rw size (omega arith);
      json_eq = rw size (sym (take_all json));
      rest_eq =
          rw size (sym (drop_all json) ∙ drop-drop 4 (length json) (u32_le (length json) ++ json));
    }

encoded :
    (json bytes : List ℕ)
    → encode_native_frame json ≡ some bytes
    → (length json < max_native_frame_bytes) × (bytes ≡ u32_le (length json) ++ json)
unfolding encode_native_frame
encoded json bytes e = elim (Bool-cases (leb max_native_frame_bytes (length json))) [
  | inl h ↦ absurd (let k = rw h at e in cc)
  | inr h ↦ let k = rw h at e in (ground arith, cc)
]

-- A message that is encoded and pushed to a decoder with an empty buffer is returned, alone, and
-- leaves the buffer empty.
pub push-encode_native_frame :
    {M : Type 0} (parse : List ℕ → Option M) (json bytes : List ℕ) (m : M)
    → encode_native_frame json ≡ some bytes
    → parse json ≡ some m
    → push parse [] bytes ≡ returned [] (m ∷ [])
unfolding push drain
push-encode_native_frame {M} parse json bytes m e p =
    let (small, layout) = encoded json bytes e in
    let seen : next (u32_le (length json) ++ json) ≡ frame json [] =
      IsFramed-next (u32_le (length json) ++ json) json [] (framed json small) in
    rw layout (rw (seen, p, next_nil) refl)
