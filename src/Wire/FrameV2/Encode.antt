-- ===== src/Wire/FrameV2/Encode.antt =====
-- `encodeMultihopFrameV2` of packages/core/src/edge/frame-v2.ts.
use warren_sdk_ts.Prelude.{ℕ, ◌%◌, List, ◌∷◌, ◌++◌, length}
use warren_sdk_ts.Prelude.Int.{pos}
use warren_sdk_ts.Wire.Result.{Result, ok, ◌>>=◌, ◌>>◌}
use warren_sdk_ts.Wire.Varint.{encode_leb128}
use warren_sdk_ts.Wire.FrameV2.{
  WarrenMultihopFrameV2, expect_len, exit_id_len, encapsulated_key_len, aead_tag_len,
}

-- The output array is filled from the front with no gap, so it is the parts in order. A `Uint8Array`
-- keeps the low byte of the version written to it.
unfoldable pub encode_multihop_frame_v2 : WarrenMultihopFrameV2 → Result (List ℕ)
unfolding expect_len
encode_multihop_frame_v2 frame = do
  expect_len frame.exit_id exit_id_len
  expect_len frame.encapsulated_key encapsulated_key_len
  expect_len frame.aead_tag aead_tag_len
  epoch ← encode_leb128 frame.epoch
  seq ← encode_leb128 frame.seq
  pq_ct_len ← encode_leb128 (pos (length frame.pq_ct))
  ct_len ← encode_leb128 (pos (length frame.ciphertext))
  ok (
      frame.version % 256
      ∷ (frame.exit_id
          ++ (epoch
              ++ (seq
                  ++ (frame.encapsulated_key
                      ++ (pq_ct_len
                          ++ (frame.pq_ct ++ (frame.aead_tag ++ (ct_len ++ frame.ciphertext)))))))))
