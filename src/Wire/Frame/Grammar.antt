-- ===== src/Wire/Frame/Grammar.antt =====
-- The byte strings that stand for a /v1 frame, with no offset and no loop.
use warren_sdk_ts.Prelude.{ℕ, ◌≡◌, List, ◌∷◌, ◌++◌, length}
use warren_sdk_ts.Prelude.Int.{pos}
use warren_sdk_ts.Wire.Number.{to_number}
use warren_sdk_ts.Wire.Varint.Groups.{IsShortLeb, leb_value}
use warren_sdk_ts.Wire.Frame.{
  WarrenMultihopFrame, hpke_version, exit_id_len, encapsulated_key_len, aead_tag_len,
}

-- `bytes` is the version byte 1, a 16-byte exit id, a LEB128 epoch, a LEB128 sequence number, a
-- 32-byte key, a 16-byte tag and a ciphertext behind its LEB128 length, and `frame` has these fields.
pub record IsFrameOf (bytes : List ℕ) (frame : WarrenMultihopFrame) : Type 0 where
  pub epoch : List ℕ
  pub seq : List ℕ
  pub ct_len : List ℕ
  pub layout :
      bytes
      ≡ hpke_version
        ∷ (frame.exit_id
            ++ (epoch
                ++ (seq
                    ++ (frame.encapsulated_key
                        ++ (frame.aead_tag ++ (ct_len ++ frame.ciphertext))))))
  pub version : frame.version ≡ hpke_version
  pub exit_id : length frame.exit_id ≡ exit_id_len
  pub epoch_leb : IsShortLeb epoch
  pub epoch_value : frame.epoch ≡ pos (to_number (leb_value epoch))
  pub seq_leb : IsShortLeb seq
  pub seq_value : frame.seq ≡ pos (leb_value seq)
  pub encapsulated_key : length frame.encapsulated_key ≡ encapsulated_key_len
  pub aead_tag : length frame.aead_tag ≡ aead_tag_len
  pub ct_len_leb : IsShortLeb ct_len
  pub ciphertext : length frame.ciphertext ≡ to_number (leb_value ct_len)
