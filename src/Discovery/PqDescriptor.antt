-- ===== src/Discovery/PqDescriptor.antt =====
-- packages/core/src/edge/pq-descriptor.ts: the signed exit descriptor that binds an exit's ML-KEM key.
pub mod Negotiation
use Prim.Native.String.{String}
use text.Mathlib.Text.{◌==◌ as str_eq}
use warren_sdk_ts.Prelude.{
  ℕ, List, [], ◌∷◌, ◌++◌, Option, none, some, Bool, true, false, ◌&&◌, ◌==◌, if◌then◌else◌, length,
}
use warren_sdk_ts.Discovery.Json.{Json, null, bool, object, string, props, property}
use warren_sdk_ts.Discovery.Platform.{
  Bytes, Platform, Checked, ok, fail, ◌>>=◌, ◌>>◌, require, or_fail,
}

pub data WarrenPqErrorCode : Type 0 where
  pq_downgrade missing_pq_key bad_pq_key_length bad_signature : WarrenPqErrorCode

pub record ExitDescriptorPq : Type 0 where
  pub exit_id : Bytes
  pub exit_x25519_multihop_pubkey : Bytes
  pub dns_disabled : Bool
  pub exit_mlkem768_pubkey : Option Bytes
  pub signature : Bytes

pub data PqAvailability : Type 0 where
  available classical_fallback : PqAvailability

abbrev pub operational_exit_pq_v1 : String
operational_exit_pq_v1 = "warren/multihop/v2/operational-signs-exit-pq"

-- ML-KEM-768 encapsulation keys
abbrev pub mlkem768_encaps_key_len : ℕ
mlkem768_encaps_key_len = 1184

abbrev pub dns_byte : Bool → ℕ
dns_byte disabled = if disabled then 1 else 0

abbrev pub negotiated :
    Bool → Checked WarrenPqErrorCode (Unit {0}) → Checked WarrenPqErrorCode PqAvailability
negotiated require_pq (ok u) = ok available
negotiated require_pq (fail e) = if require_pq then fail pq_downgrade else ok classical_fallback

module _ (p : Platform) where
  abbrev hex_field : Option Json → Checked WarrenPqErrorCode Bytes
  hex_field (some (string s)) = or_fail (p.hex_to_bytes s) bad_signature
  hex_field _ = fail bad_signature

  abbrev optional_hex_field : Option Json → Checked WarrenPqErrorCode (Option Bytes)
  optional_hex_field none = ok none
  optional_hex_field (some null) = ok none
  optional_hex_field (some v) = do bytes ← hex_field (some v); ok (some bytes)

  abbrev is_true : Option Json → Bool
  is_true (some (bool b)) = b
  is_true _ = false

  -- `JSON.parse` has returned an object; what it throws itself is left out.
  unfoldable pub parse_exit_descriptor_pq :
      List (String × Json) → Checked WarrenPqErrorCode ExitDescriptorPq
  unfolding property
  parse_exit_descriptor_pq parsed = do
    exit_id ← hex_field (property "exit_id" parsed)
    x25519 ← hex_field (property "exit_x25519_multihop_pubkey" parsed)
    mlkem ← optional_hex_field (property "exit_mlkem768_pubkey" parsed)
    signature ← hex_field (property "signature" parsed)
    ok (record {
      exit_id = exit_id;
      exit_x25519_multihop_pubkey = x25519;
      dns_disabled = is_true (property "dns_disabled" parsed);
      exit_mlkem768_pubkey = mlkem;
      signature = signature;
    })

  abbrev pub payload_pq : Bytes → Bytes → Bool → Bytes → Bytes
  payload_pq exit_id x25519 dns_disabled mlkem =
      p.utf8 operational_exit_pq_v1 ++ exit_id ++ x25519 ++ (dns_byte dns_disabled ∷ mlkem)

  unfoldable pub exit_descriptor_signing_payload_pq :
      Bytes → Bytes → Bool → Bytes → Checked WarrenPqErrorCode Bytes
  exit_descriptor_signing_payload_pq exit_id x25519 dns_disabled mlkem = do
    require (length exit_id == 16) bad_signature
    require (length x25519 == 32) bad_signature
    ok (payload_pq exit_id x25519 dns_disabled mlkem)

  unfoldable pub verify_exit_descriptor_pq :
      Bytes → ExitDescriptorPq → Checked WarrenPqErrorCode (Unit {0})
  unfolding exit_descriptor_signing_payload_pq
  verify_exit_descriptor_pq operational descriptor = do
    key ← or_fail descriptor.exit_mlkem768_pubkey missing_pq_key
    require (length key == mlkem768_encaps_key_len) bad_pq_key_length
    require (length operational == 32 && length descriptor.signature == 64) bad_signature
    payload ←
        exit_descriptor_signing_payload_pq descriptor.exit_id descriptor.exit_x25519_multihop_pubkey
          descriptor.dns_disabled key
    verified ← or_fail (p.ed25519_verify descriptor.signature payload operational) bad_signature
    require verified bad_signature

  unfoldable pub negotiate_pq :
      Bytes → ExitDescriptorPq → Bool → Checked WarrenPqErrorCode PqAvailability
  unfolding verify_exit_descriptor_pq
  negotiate_pq operational descriptor require_pq =
      negotiated require_pq (verify_exit_descriptor_pq operational descriptor)
