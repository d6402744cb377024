-- ===== src/Wire/Frame/RoundTrip.antt =====
-- `encodeMultihopFrame` against `decodeMultihopFrame`.
use warren_sdk_ts.Prelude.{
  ℕ, ◌^◌, ◌<◌, ◌≡◌, refl, ap, sym, ◌∙◌, List, [], ◌∷◌, ◌++◌, arith, length, All, append-nil,
}
use warren_sdk_ts.Prelude.Int.{pos}
use warren_sdk_ts.Wire.Result.{ok, throw, trailing_bytes}
use warren_sdk_ts.Wire.Number.{max_exact, to_number, to_number_exact}
use warren_sdk_ts.Wire.Varint.Groups.{IsByte, leb_value}
use warren_sdk_ts.Wire.Varint.Encode.{emitted, encode_leb128-pos, leb_value-emitted}
use warren_sdk_ts.Wire.Varint.RoundTrip.{emitted-IsShortLeb}
use warren_sdk_ts.Wire.Frame.{
  WarrenMultihopFrame, expect_len, hpke_version, exit_id_len, encapsulated_key_len, aead_tag_len,
}
use warren_sdk_ts.Wire.Frame.Encode.{encode_multihop_frame}
use warren_sdk_ts.Wire.Frame.Decode.{decode_multihop_frame}
use warren_sdk_ts.Wire.Frame.Grammar.{IsFrameOf}
use warren_sdk_ts.Wire.Frame.Accepts.{decode-IsFrameOf, decode_multihop_frame_iff}

-- A frame that the wire carries: version 1, fields of their sizes, an epoch and a ciphertext length
-- that a double holds exactly, and a sequence number of at most ten groups of seven bits.
pub record IsSendable (frame : WarrenMultihopFrame) : Type 0 where
  pub version : frame.version ≡ hpke_version
  pub exit_id : length frame.exit_id ≡ exit_id_len
  pub encapsulated_key : length frame.encapsulated_key ≡ encapsulated_key_len
  pub aead_tag : length frame.aead_tag ≡ aead_tag_len
  pub epoch_number : ℕ
  pub epoch : frame.epoch ≡ pos epoch_number
  pub epoch_exact : epoch_number < max_exact
  pub seq_number : ℕ
  pub seq : frame.seq ≡ pos seq_number
  pub seq_bound : seq_number < 2 ^ 70
  pub ciphertext : length frame.ciphertext < max_exact

expect_len-eq : (bytes : List ℕ) (n : ℕ) → length bytes ≡ n → expect_len bytes n ≡ ok tt
unfolding expect_len
expect_len-eq bytes n h = ground arith

-- The bytes of a sendable frame.
pub frame_bytes : (frame : WarrenMultihopFrame) → IsSendable frame → List ℕ
frame_bytes frame h =
    hpke_version
    ∷ (frame.exit_id
        ++ (emitted h.epoch_number
            ++ (emitted h.seq_number
                ++ (frame.encapsulated_key
                    ++ (frame.aead_tag
                        ++ (emitted (length frame.ciphertext) ++ frame.ciphertext))))))

encode-IsSendable :
    (frame : WarrenMultihopFrame) (h : IsSendable frame)
    → encode_multihop_frame frame ≡ ok (frame_bytes frame h)
unfolding encode_multihop_frame frame_bytes
encode-IsSendable frame h = rw (
  expect_len-eq frame.exit_id exit_id_len h.exit_id,
  expect_len-eq frame.encapsulated_key encapsulated_key_len h.encapsulated_key,
  expect_len-eq frame.aead_tag aead_tag_len h.aead_tag,
  h.epoch,
  encode_leb128-pos h.epoch_number,
  h.seq,
  encode_leb128-pos h.seq_number,
  encode_leb128-pos (length frame.ciphertext),
  h.version,
)

frame_bytes-IsFrameOf :
    (frame : WarrenMultihopFrame) (h : IsSendable frame) → IsFrameOf (frame_bytes frame h) frame
unfolding frame_bytes
frame_bytes-IsFrameOf frame h = record {
  epoch = emitted h.epoch_number;
  seq = emitted h.seq_number;
  ct_len = emitted (length frame.ciphertext);
  layout = refl;
  version = h.version;
  exit_id = h.exit_id;
  epoch_leb = emitted-IsShortLeb h.epoch_number (omega (arith, h.epoch_exact));
  epoch_value = h.epoch ∙ ap pos (sym (exact h.epoch_number h.epoch_exact));
  seq_leb = emitted-IsShortLeb h.seq_number h.seq_bound;
  seq_value = h.seq ∙ ap pos (sym (leb_value-emitted h.seq_number));
  encapsulated_key = h.encapsulated_key;
  aead_tag = h.aead_tag;
  ct_len_leb = emitted-IsShortLeb (length frame.ciphertext) (omega (arith, h.ciphertext));
  ciphertext = sym (exact (length frame.ciphertext) h.ciphertext);
}
  where
    exact : (n : ℕ) → n < max_exact → to_number (leb_value (emitted n)) ≡ n
    exact n lt = ap to_number (leb_value-emitted n) ∙ to_number_exact n lt

-- A sendable /v1 frame is encoded, and its encoding decodes to the same frame.
pub decode-encode_multihop_frame :
    (frame : WarrenMultihopFrame)
    → IsSendable frame
    → (bytes : List ℕ) × (encode_multihop_frame frame ≡ ok bytes)
      × (decode_multihop_frame bytes ≡ ok frame)
decode-encode_multihop_frame frame h = (
  frame_bytes frame h,
  encode-IsSendable frame h,
  rw append-nil at
      (decode-IsFrameOf (frame_bytes frame h) [] frame (frame_bytes-IsFrameOf frame h)),
)

-- Whatever byte string decodes to a frame, with one or more bytes behind it is refused for its
-- trailing bytes: no accepted byte string extends another.
pub decode_multihop_frame_trailing :
    (bytes : List ℕ) (frame : WarrenMultihopFrame) (b : ℕ) (rest : List ℕ)
    → All IsByte bytes
    → decode_multihop_frame bytes ≡ ok frame
    → decode_multihop_frame (bytes ++ b ∷ rest) ≡ throw trailing_bytes
decode_multihop_frame_trailing bytes frame b rest h e =
    decode-IsFrameOf bytes (b ∷ rest) frame ((decode_multihop_frame_iff bytes frame h).0 e)
