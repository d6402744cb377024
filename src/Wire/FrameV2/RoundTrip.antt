-- ===== src/Wire/FrameV2/RoundTrip.antt =====
-- `encodeMultihopFrameV2` against `decodeMultihopFrameV2`.
use warren_sdk_ts.Prelude.{
  ℕ, ◌^◌, ◌<◌, ◌≤◌, ◌+◌, length-append, ◌≡◌, refl, ap, sym, ◌∙◌, List, [], ◌∷◌, ◌++◌, arith, length,
  All, append-nil,
}
use warren_sdk_ts.Prelude.Int.{pos}
use warren_sdk_ts.Wire.Result.{ok, throw, trailing_bytes}
use warren_sdk_ts.Wire.Number.{max_exact, to_number, to_number_exact}
use warren_sdk_ts.Wire.Varint.Groups.{IsByte, leb_value}
use warren_sdk_ts.Wire.Varint.Encode.{emitted, length-emitted, encode_leb128-pos, leb_value-emitted}
use warren_sdk_ts.Wire.Varint.RoundTrip.{length-emitted_ten, emitted-IsShortLeb}
use warren_sdk_ts.Wire.FrameV2.{
  WarrenMultihopFrameV2, expect_len, hpke_version_v2, exit_id_len, encapsulated_key_len,
  aead_tag_len, max_frame_size,
}
use warren_sdk_ts.Wire.FrameV2.Encode.{encode_multihop_frame_v2}
use warren_sdk_ts.Wire.FrameV2.Decode.{decode_multihop_frame_v2}
use warren_sdk_ts.Wire.FrameV2.Grammar.{IsFrameV2Of}
use warren_sdk_ts.Wire.FrameV2.Accepts.{decode-IsFrameV2Of, decode_multihop_frame_v2_iff}

-- A frame that the wire carries: version 2, fields of their sizes, an epoch that a double holds
-- exactly, a sequence number of at most ten groups of seven bits, and two ciphertexts of 65445 bytes
-- together at most, which with 91 bytes for the rest stay within the decoder's limit.
pub record IsSendableV2 (frame : WarrenMultihopFrameV2) : Type 0 where
  pub version : frame.version ≡ hpke_version_v2
  pub exit_id : length frame.exit_id ≡ exit_id_len
  pub encapsulated_key : length frame.encapsulated_key ≡ encapsulated_key_len
  pub aead_tag : length frame.aead_tag ≡ aead_tag_len
  pub epoch_number : ℕ
  pub epoch : frame.epoch ≡ pos epoch_number
  pub epoch_exact : epoch_number < max_exact
  pub seq_number : ℕ
  pub seq : frame.seq ≡ pos seq_number
  pub seq_bound : seq_number < 2 ^ 70
  pub fits : length frame.pq_ct + length frame.ciphertext ≤ 65445

expect_len-eq : (bytes : List ℕ) (n : ℕ) → length bytes ≡ n → expect_len bytes n ≡ ok tt
unfolding expect_len
expect_len-eq bytes n h = ground arith

-- The bytes of a sendable frame.
pub frame_v2_bytes : (frame : WarrenMultihopFrameV2) → IsSendableV2 frame → List ℕ
frame_v2_bytes frame h =
    hpke_version_v2
    ∷ (frame.exit_id
        ++ (emitted h.epoch_number
            ++ (emitted h.seq_number
                ++ (frame.encapsulated_key
                    ++ (emitted (length frame.pq_ct)
                        ++ (frame.pq_ct
                            ++ (frame.aead_tag
                                ++ (emitted (length frame.ciphertext) ++ frame.ciphertext))))))))

encode-IsSendableV2 :
    (frame : WarrenMultihopFrameV2) (h : IsSendableV2 frame)
    → encode_multihop_frame_v2 frame ≡ ok (frame_v2_bytes frame h)
unfolding encode_multihop_frame_v2 frame_v2_bytes
encode-IsSendableV2 frame h = rw (
  expect_len-eq frame.exit_id exit_id_len h.exit_id,
  expect_len-eq frame.encapsulated_key encapsulated_key_len h.encapsulated_key,
  expect_len-eq frame.aead_tag aead_tag_len h.aead_tag,
  h.epoch,
  encode_leb128-pos h.epoch_number,
  h.seq,
  encode_leb128-pos h.seq_number,
  encode_leb128-pos (length frame.pq_ct),
  encode_leb128-pos (length frame.ciphertext),
  h.version,
)

frame_v2_bytes-IsFrameV2Of :
    (frame : WarrenMultihopFrameV2) (h : IsSendableV2 frame)
    → IsFrameV2Of (frame_v2_bytes frame h) frame
unfolding frame_v2_bytes
frame_v2_bytes-IsFrameV2Of frame h = record {
  epoch = emitted h.epoch_number;
  seq = emitted h.seq_number;
  pq_ct_len = emitted (length frame.pq_ct);
  ct_len = emitted (length frame.ciphertext);
  layout = refl;
  version = h.version;
  exit_id = h.exit_id;
  epoch_leb = emitted-IsShortLeb h.epoch_number (omega (arith, h.epoch_exact));
  epoch_value = h.epoch ∙ ap pos (sym (exact h.epoch_number h.epoch_exact));
  seq_leb = emitted-IsShortLeb h.seq_number h.seq_bound;
  seq_value = h.seq ∙ ap pos (sym (leb_value-emitted h.seq_number));
  encapsulated_key = h.encapsulated_key;
  aead_tag = h.aead_tag;
  pq_ct_len_leb = emitted-IsShortLeb (length frame.pq_ct) (omega (arith, h.fits));
  pq_ct = sym (exact (length frame.pq_ct) (omega (arith, h.fits)));
  ct_len_leb = emitted-IsShortLeb (length frame.ciphertext) (omega (arith, h.fits));
  ciphertext = sym (exact (length frame.ciphertext) (omega (arith, h.fits)));
}
  where
    exact : (n : ℕ) → n < max_exact → to_number (leb_value (emitted n)) ≡ n
    exact n lt = ap to_number (leb_value-emitted n) ∙ to_number_exact n lt

length-frame_v2_bytes :
    (frame : WarrenMultihopFrameV2) (h : IsSendableV2 frame)
    → length (frame_v2_bytes frame h) ≤ max_frame_size
unfolding frame_v2_bytes
length-frame_v2_bytes frame h = simp length-append (
    omega (
      arith,
      h.exit_id,
      h.encapsulated_key,
      h.aead_tag,
      h.fits,
      length-emitted_ten h.epoch_number (omega (arith, h.epoch_exact)),
      length-emitted_ten h.seq_number h.seq_bound,
      length-emitted 2 (length frame.pq_ct) (omega (arith, h.fits)),
      length-emitted 2 (length frame.ciphertext) (omega (arith, h.fits)),
    ))

-- A sendable /v2 frame is encoded, and its encoding decodes to the same frame.
pub decode-encode_multihop_frame_v2 :
    (frame : WarrenMultihopFrameV2)
    → IsSendableV2 frame
    → (bytes : List ℕ) × (encode_multihop_frame_v2 frame ≡ ok bytes)
      × (decode_multihop_frame_v2 bytes ≡ ok frame)
decode-encode_multihop_frame_v2 frame h = (
  frame_v2_bytes frame h,
  encode-IsSendableV2 frame h,
  rw append-nil at (
      decode-IsFrameV2Of (frame_v2_bytes frame h) [] frame (frame_v2_bytes-IsFrameV2Of frame h)
        (rw append-nil (length-frame_v2_bytes frame h))),
)

-- Whatever byte string decodes to a frame, within the size limit and with one or more bytes behind it is refused for its
-- trailing bytes: no accepted byte string extends another.
pub decode_multihop_frame_v2_trailing :
    (bytes : List ℕ) (frame : WarrenMultihopFrameV2) (b : ℕ) (rest : List ℕ)
    → All IsByte bytes
    → decode_multihop_frame_v2 bytes ≡ ok frame
    → length (bytes ++ b ∷ rest) ≤ max_frame_size
    → decode_multihop_frame_v2 (bytes ++ b ∷ rest) ≡ throw trailing_bytes
decode_multihop_frame_v2_trailing bytes frame b rest h e fits =
    decode-IsFrameV2Of bytes (b ∷ rest) frame ((decode_multihop_frame_v2_iff bytes frame h).0 e).1
      fits
