-- ===== src/Wire/FrameV2/Grammar.antt =====
-- The byte strings that stand for a /v2 frame, with no offset and no loop.
use warren_sdk_ts.Prelude.{ℕ, ◌≡◌, List, ◌∷◌, ◌++◌, length}
use warren_sdk_ts.Prelude.Int.{pos}
use warren_sdk_ts.Wire.Number.{to_number}
use warren_sdk_ts.Wire.Varint.Groups.{IsShortLeb, leb_value}
use warren_sdk_ts.Wire.FrameV2.{
  WarrenMultihopFrameV2, hpke_version_v2, exit_id_len, encapsulated_key_len, aead_tag_len,
}

-- `bytes` is the version byte 2, a 16-byte exit id, a LEB128 epoch, a LEB128 sequence number, a
-- 32-byte key, a KEM ciphertext behind its LEB128 length, a 16-byte tag and a ciphertext behind its
-- own, and `frame` has these fields.
pub record IsFrameV2Of (bytes : List ℕ) (frame : WarrenMultihopFrameV2) : Type 0 where
  pub epoch : List ℕ
  pub seq : List ℕ
  pub pq_ct_len : List ℕ
  pub ct_len : List ℕ
  pub layout :
      bytes
      ≡ hpke_version_v2
        ∷ (frame.exit_id
            ++ (epoch
                ++ (seq
                    ++ (frame.encapsulated_key
                        ++ (pq_ct_len
                            ++ (frame.pq_ct
                                ++ (frame.aead_tag ++ (ct_len ++ frame.ciphertext))))))))
  pub version : frame.version ≡ hpke_version_v2
  pub exit_id : length frame.exit_id ≡ exit_id_len
  pub epoch_leb : IsShortLeb epoch
  pub epoch_value : frame.epoch ≡ pos (to_number (leb_value epoch))
  pub seq_leb : IsShortLeb seq
  pub seq_value : frame.seq ≡ pos (leb_value seq)
  pub encapsulated_key : length frame.encapsulated_key ≡ encapsulated_key_len
  pub aead_tag : length frame.aead_tag ≡ aead_tag_len
  pub pq_ct_len_leb : IsShortLeb pq_ct_len
  pub pq_ct : length frame.pq_ct ≡ to_number (leb_value pq_ct_len)
  pub ct_len_leb : IsShortLeb ct_len
  pub ciphertext : length frame.ciphertext ≡ to_number (leb_value ct_len)
