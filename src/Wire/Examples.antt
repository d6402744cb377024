-- ===== src/Wire/Examples.antt =====
-- The theorems on the wire formats at concrete inputs.
use warren_sdk_ts.Prelude.{
  ℕ, zero, suc, ◌<◌, ◌≤◌, ◌≡◌, ◌↔◌, refl, ap, sym, ◌∙◌, List, [], ◌∷◌, ◌++◌, Bool, true, false, ltb,
  if◌then◌else◌, All, arith, length,
}
use warren_sdk_ts.Prelude.Int.{pos}
use warren_sdk_ts.Wire.Result.{ok}
use warren_sdk_ts.Wire.Varint.{encode_leb128, decode_leb128}
use warren_sdk_ts.Wire.Varint.Groups.{IsByte, leb_value}
use warren_sdk_ts.Wire.Varint.Decode.{Answer, decode_leb128_answer}
use warren_sdk_ts.Wire.Varint.RoundTrip.{decode-encode_leb128}
use warren_sdk_ts.Wire.Number.{to_number, to_number_exact, max_exact}
use warren_sdk_ts.Wire.Frame.{WarrenMultihopFrame}
use warren_sdk_ts.Wire.Frame.Encode.{encode_multihop_frame}
use warren_sdk_ts.Wire.Frame.Decode.{decode_multihop_frame}
use warren_sdk_ts.Wire.Frame.Grammar.{IsFrameOf}
use warren_sdk_ts.Wire.Frame.Accepts.{decode_multihop_frame_iff}
use warren_sdk_ts.Wire.Frame.RoundTrip.{IsSendable, decode-encode_multihop_frame}
use warren_sdk_ts.Wire.FrameV2.{WarrenMultihopFrameV2, max_frame_size}
use warren_sdk_ts.Wire.FrameV2.Encode.{encode_multihop_frame_v2}
use warren_sdk_ts.Wire.FrameV2.Decode.{decode_multihop_frame_v2}
use warren_sdk_ts.Wire.FrameV2.Grammar.{IsFrameV2Of}
use warren_sdk_ts.Wire.FrameV2.Accepts.{decode_multihop_frame_v2_iff}
use warren_sdk_ts.Wire.FrameV2.RoundTrip.{IsSendableV2, decode-encode_multihop_frame_v2}

-- `n` bytes of one value
abbrev fill : ℕ → ℕ → List ℕ
fill zero b = []
fill (suc n) b = b ∷ fill n b

abbrev all_bytes : List ℕ → Bool
all_bytes [] = true
all_bytes (b ∷ bs) = if ltb b 256 then all_bytes bs else false

all_bytes-All : (bs : List ℕ) → all_bytes bs ≡ true → All IsByte bs
all_bytes-All [] h = tt
all_bytes-All (b ∷ bs) h = (ground arith, all_bytes-All bs (ground arith))

decode_leb128_answer_example : Answer (172 ∷ 2 ∷ 9 ∷ [])
decode_leb128_answer_example =
    decode_leb128_answer (172 ∷ 2 ∷ 9 ∷ []) (all_bytes-All (172 ∷ 2 ∷ 9 ∷ []) refl)

decode-encode_leb128_example :
    (bs : List ℕ) × (encode_leb128 (pos 300) ≡ ok bs)
    × (length bs ≤ 10)
    × (decode_leb128 (bs ++ (9 ∷ [])) ≡ ok (record { value = 300; length = length bs }))
decode-encode_leb128_example = decode-encode_leb128 300 (9 ∷ []) (omega arith)

abbrev test_frame : WarrenMultihopFrame
test_frame = record {
  version = 1;
  exit_id = fill 16 7;
  epoch = pos 3;
  seq = pos 300;
  encapsulated_key = fill 32 8;
  aead_tag = fill 16 9;
  ciphertext = 1 ∷ 2 ∷ [];
}

abbrev test_bytes : List ℕ
test_bytes = 1 ∷ (fill 16 7 ++ (3 ∷ 172 ∷ 2 ∷ (fill 32 8 ++ (fill 16 9 ++ (2 ∷ 1 ∷ 2 ∷ [])))))

digits : (bs : List ℕ) (n : ℕ) → leb_value bs ≡ n → n < max_exact → n ≡ to_number (leb_value bs)
digits bs n e h = sym (ap to_number e ∙ to_number_exact n h)

test_IsFrameOf : IsFrameOf test_bytes test_frame
unfolding leb_value
test_IsFrameOf = record {
  epoch = 3 ∷ [];
  seq = 172 ∷ 2 ∷ [];
  ct_len = 2 ∷ [];
  layout = refl;
  version = refl;
  exit_id = refl;
  epoch_leb = record { leb = omega arith; short = omega arith };
  epoch_value = ap pos (digits (3 ∷ []) 3 refl (omega arith));
  seq_leb = record { leb = (omega arith, omega arith, omega arith); short = omega arith };
  seq_value = refl;
  encapsulated_key = refl;
  aead_tag = refl;
  ct_len_leb = record { leb = omega arith; short = omega arith };
  ciphertext = digits (2 ∷ []) 2 refl (omega arith);
}

decode_multihop_frame_iff_example :
    (decode_multihop_frame test_bytes ≡ ok test_frame) ↔ IsFrameOf test_bytes test_frame
decode_multihop_frame_iff_example =
    decode_multihop_frame_iff test_bytes test_frame (all_bytes-All test_bytes refl)

test_decode : decode_multihop_frame test_bytes ≡ ok test_frame
test_decode = decode_multihop_frame_iff_example.1 test_IsFrameOf

test_IsSendable : IsSendable test_frame
test_IsSendable = record {
  version = refl;
  exit_id = refl;
  encapsulated_key = refl;
  aead_tag = refl;
  epoch_number = 3;
  epoch = refl;
  epoch_exact = omega arith;
  seq_number = 300;
  seq = refl;
  seq_bound = omega arith;
  ciphertext = omega arith;
}

decode-encode_multihop_frame_example :
    (bytes : List ℕ) × (encode_multihop_frame test_frame ≡ ok bytes)
    × (decode_multihop_frame bytes ≡ ok test_frame)
decode-encode_multihop_frame_example = decode-encode_multihop_frame test_frame test_IsSendable

abbrev test_frame_v2 : WarrenMultihopFrameV2
test_frame_v2 = record {
  version = 2;
  exit_id = fill 16 7;
  epoch = pos 3;
  seq = pos 300;
  encapsulated_key = fill 32 8;
  pq_ct = 4 ∷ [];
  aead_tag = fill 16 9;
  ciphertext = 1 ∷ 2 ∷ [];
}

abbrev test_bytes_v2 : List ℕ
test_bytes_v2 =
    2 ∷ (fill 16 7 ++ (3 ∷ 172 ∷ 2 ∷ (fill 32 8 ++ (1 ∷ 4 ∷ (fill 16 9 ++ (2 ∷ 1 ∷ 2 ∷ []))))))

test_IsFrameV2Of : IsFrameV2Of test_bytes_v2 test_frame_v2
unfolding leb_value
test_IsFrameV2Of = record {
  epoch = 3 ∷ [];
  seq = 172 ∷ 2 ∷ [];
  pq_ct_len = 1 ∷ [];
  ct_len = 2 ∷ [];
  layout = refl;
  version = refl;
  exit_id = refl;
  epoch_leb = record { leb = omega arith; short = omega arith };
  epoch_value = ap pos (digits (3 ∷ []) 3 refl (omega arith));
  seq_leb = record { leb = (omega arith, omega arith, omega arith); short = omega arith };
  seq_value = refl;
  encapsulated_key = refl;
  aead_tag = refl;
  pq_ct_len_leb = record { leb = omega arith; short = omega arith };
  pq_ct = digits (1 ∷ []) 1 refl (omega arith);
  ct_len_leb = record { leb = omega arith; short = omega arith };
  ciphertext = digits (2 ∷ []) 2 refl (omega arith);
}

decode_multihop_frame_v2_iff_example :
    (decode_multihop_frame_v2 test_bytes_v2 ≡ ok test_frame_v2)
    ↔ ((length test_bytes_v2 ≤ max_frame_size) × IsFrameV2Of test_bytes_v2 test_frame_v2)
decode_multihop_frame_v2_iff_example =
    decode_multihop_frame_v2_iff test_bytes_v2 test_frame_v2 (all_bytes-All test_bytes_v2 refl)

test_decode_v2 : decode_multihop_frame_v2 test_bytes_v2 ≡ ok test_frame_v2
test_decode_v2 = decode_multihop_frame_v2_iff_example.1 (omega arith, test_IsFrameV2Of)

test_IsSendableV2 : IsSendableV2 test_frame_v2
test_IsSendableV2 = record {
  version = refl;
  exit_id = refl;
  encapsulated_key = refl;
  aead_tag = refl;
  epoch_number = 3;
  epoch = refl;
  epoch_exact = omega arith;
  seq_number = 300;
  seq = refl;
  seq_bound = omega arith;
  fits = omega arith;
}

decode-encode_multihop_frame_v2_example :
    (bytes : List ℕ) × (encode_multihop_frame_v2 test_frame_v2 ≡ ok bytes)
    × (decode_multihop_frame_v2 bytes ≡ ok test_frame_v2)
decode-encode_multihop_frame_v2_example =
    decode-encode_multihop_frame_v2 test_frame_v2 test_IsSendableV2
