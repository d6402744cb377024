-- ===== src/Wire/FrameV2.antt =====
-- packages/core/src/edge/frame-v2.ts: the /v2 multi-hop datagram frame.
pub mod Encode
pub mod Decode
pub mod Grammar
pub mod Accepts
pub mod RoundTrip
pub mod Versions
use warren_sdk_ts.Prelude.{ℕ, List, length, ◌==◌, if◌then◌else◌}
use warren_sdk_ts.Prelude.Int.{ℤ}
use warren_sdk_ts.Wire.Result.{Result, ok, throw, wrong_field_length}

abbrev pub hpke_version_v2 : ℕ
hpke_version_v2 = 2

abbrev pub exit_id_len : ℕ
exit_id_len = 16

abbrev pub encapsulated_key_len : ℕ
encapsulated_key_len = 32

abbrev pub aead_tag_len : ℕ
aead_tag_len = 16

abbrev pub max_frame_size : ℕ
max_frame_size = 65536

-- `epoch` and `seq` are integers of the caller's, and may be negative.
pub record WarrenMultihopFrameV2 : Type 0 where
  pub version : ℕ
  pub exit_id : List ℕ
  pub epoch : ℤ
  pub seq : ℤ
  pub encapsulated_key : List ℕ
  pub pq_ct : List ℕ
  pub aead_tag : List ℕ
  pub ciphertext : List ℕ

unfoldable pub expect_len : List ℕ → ℕ → Result (Unit {0})
expect_len bytes len =
    if length bytes == len then ok tt else throw (wrong_field_length len (length bytes))
