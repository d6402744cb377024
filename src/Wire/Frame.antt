-- ===== src/Wire/Frame.antt =====
-- packages/core/src/edge/frame.ts: the /v1 multi-hop datagram frame.
pub mod Encode
pub mod Decode
pub mod Grammar
pub mod Accepts
pub mod RoundTrip
use warren_sdk_ts.Prelude.{ℕ, List, length, ◌==◌, if◌then◌else◌}
use warren_sdk_ts.Prelude.Int.{ℤ}
use warren_sdk_ts.Wire.Result.{Result, ok, throw, wrong_field_length}

abbrev pub hpke_version : ℕ
hpke_version = 1

abbrev pub exit_id_len : ℕ
exit_id_len = 16

abbrev pub encapsulated_key_len : ℕ
encapsulated_key_len = 32

abbrev pub aead_tag_len : ℕ
aead_tag_len = 16

-- `epoch` and `seq` are integers of the caller's, and may be negative.
pub record WarrenMultihopFrame : Type 0 where
  pub version : ℕ
  pub exit_id : List ℕ
  pub epoch : ℤ
  pub seq : ℤ
  pub encapsulated_key : List ℕ
  pub aead_tag : List ℕ
  pub ciphertext : List ℕ

unfoldable pub expect_len : List ℕ → ℕ → Result (Unit {0})
expect_len bytes len =
    if length bytes == len then ok tt else throw (wrong_field_length len (length bytes))
