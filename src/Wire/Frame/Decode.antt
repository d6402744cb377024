-- ===== src/Wire/Frame/Decode.antt =====
-- `decodeMultihopFrame` of packages/core/src/edge/frame.ts.
use warren_sdk_ts.Prelude.{ℕ, List, ◌==◌, if◌then◌else◌}
use warren_sdk_ts.Prelude.Int.{pos}
use warren_sdk_ts.Wire.Result.{Result, truncated_frame, unsupported_version}
use warren_sdk_ts.Wire.Number.{to_number}
use warren_sdk_ts.Wire.Cursor.{
  Read, ◌>>=◌, ◌>>◌, pure, raise, read_u8, read_bytes, read_leb128, expect_end, run,
}
use warren_sdk_ts.Wire.Frame.{
  WarrenMultihopFrame, hpke_version, exit_id_len, encapsulated_key_len, aead_tag_len,
}

-- The fields behind the version byte.
unfoldable pub read_fields : ℕ → Read WarrenMultihopFrame
read_fields version = do
  exit_id ← read_bytes truncated_frame exit_id_len
  epoch ← read_leb128
  seq ← read_leb128
  encapsulated_key ← read_bytes truncated_frame encapsulated_key_len
  aead_tag ← read_bytes truncated_frame aead_tag_len
  ct_len ← read_leb128
  ciphertext ← read_bytes truncated_frame (to_number ct_len)
  expect_end
  pure (record {
    version = version;
    exit_id = exit_id;
    epoch = pos (to_number epoch);
    seq = pos seq;
    encapsulated_key = encapsulated_key;
    aead_tag = aead_tag;
    ciphertext = ciphertext;
  })

unfoldable pub read_frame : Read WarrenMultihopFrame
unfolding read_fields
read_frame = do
  version ← read_u8 truncated_frame
  if version == hpke_version then read_fields version else raise (unsupported_version version)

unfoldable pub decode_multihop_frame : List ℕ → Result WarrenMultihopFrame
unfolding read_frame
decode_multihop_frame bytes = run read_frame bytes
