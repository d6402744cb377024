-- ===== src/Wire/FrameV2/Decode.antt =====
-- `decodeMultihopFrameV2` of packages/core/src/edge/frame-v2.ts.
use warren_sdk_ts.Prelude.{ℕ, List, length, ltb, ◌==◌, if◌then◌else◌}
use warren_sdk_ts.Prelude.Int.{pos}
use warren_sdk_ts.Wire.Result.{Result, throw, frame_too_large, truncated_frame, unsupported_version}
use warren_sdk_ts.Wire.Number.{to_number}
use warren_sdk_ts.Wire.Cursor.{
  Read, ◌>>=◌, ◌>>◌, pure, raise, read_u8, read_bytes, read_leb128, expect_end, run,
}
use warren_sdk_ts.Wire.FrameV2.{
  WarrenMultihopFrameV2, hpke_version_v2, exit_id_len, encapsulated_key_len, aead_tag_len,
  max_frame_size,
}

-- The fields behind the version byte.
unfoldable pub read_fields_v2 : ℕ → Read WarrenMultihopFrameV2
read_fields_v2 version = do
  exit_id ← read_bytes truncated_frame exit_id_len
  epoch ← read_leb128
  seq ← read_leb128
  encapsulated_key ← read_bytes truncated_frame encapsulated_key_len
  pq_ct_len ← read_leb128
  pq_ct ← read_bytes truncated_frame (to_number pq_ct_len)
  aead_tag ← read_bytes truncated_frame aead_tag_len
  ct_len ← read_leb128
  ciphertext ← read_bytes truncated_frame (to_number ct_len)
  expect_end
  pure (record {
    version = version;
    exit_id = exit_id;
    epoch = pos (to_number epoch);
    seq = pos seq;
    encapsulated_key = encapsulated_key;
    pq_ct = pq_ct;
    aead_tag = aead_tag;
    ciphertext = ciphertext;
  })

unfoldable pub read_frame_v2 : Read WarrenMultihopFrameV2
unfolding read_fields_v2
read_frame_v2 = do
  version ← read_u8 truncated_frame
  if version == hpke_version_v2 then read_fields_v2 version else raise (unsupported_version version)

unfoldable pub decode_multihop_frame_v2 : List ℕ → Result WarrenMultihopFrameV2
unfolding read_frame_v2
decode_multihop_frame_v2 bytes =
    if ltb max_frame_size (length bytes) then throw frame_too_large else run read_frame_v2 bytes
