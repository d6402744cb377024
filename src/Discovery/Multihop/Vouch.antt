-- ===== src/Discovery/Multihop/Vouch.antt =====
-- packages/core/src/discovery/multihop.ts: the operational key's signatures on one node.
use Prim.Native.String.{String}
use warren_sdk_ts.Prelude.{
  ℕ, ◌/◌, ◌%◌, ◌^◌, List, [], ◌∷◌, ◌++◌, Option, none, some, Bool, true, false, not, ◌==◌,
  if◌then◌else◌, length,
}
use warren_sdk_ts.Discovery.Platform.{Bytes, Platform, Checked, ok, fail, ◌>>=◌, or_fail}
use warren_sdk_ts.Discovery.PqDescriptor.{
  WarrenPqErrorCode, ExitDescriptorPq, dns_byte, verify_exit_descriptor_pq,
}
use warren_sdk_ts.Discovery.Multihop.Node.{CanonicalNode}

-- `uncaught` is an exception of `hexToBytes` outside every `try`.
pub data WarrenDirectoryErrorCode : Type 0 where
  json unsupported_version server_pubkey_mismatch invalid_hex : WarrenDirectoryErrorCode
  bad_envelope_signature bad_operational_cert validity_too_long : WarrenDirectoryErrorCode
  uncaught : WarrenDirectoryErrorCode

abbrev pub root_operational_v1 : String
root_operational_v1 = "warren/multihop/v1/root-signs-operational"

abbrev pub operational_exit_v1 : String
operational_exit_v1 = "warren/multihop/v1/operational-signs-exit"

abbrev pub operational_exit_v2 : String
operational_exit_v2 = "warren/multihop/v2/operational-signs-exit"

abbrev pub operational_relay_v1 : String
operational_relay_v1 = "warren/multihop/v1/operational-signs-relay"

abbrev pub operational_node_v1 : String
operational_node_v1 = "warren/multihop/v1/operational-signs-node"

pub record NodeVouch : Type 0 where
  pub dns_disabled : Bool
  pub exit_mlkem768_pubkey_hex : Option String

abbrev pub concat_parts : List Bytes → Bytes
concat_parts [] = []
concat_parts (part ∷ parts) = part ++ concat_parts parts

abbrev is_verified : Option Bool → Bool
is_verified none = false
is_verified (some b) = b

abbrev passed : Checked WarrenPqErrorCode (Unit {0}) → Bool
passed (ok u) = true
passed (fail e) = false

-- `setUint32` of `asn >>> 0`
unfoldable pub asn_be : ℕ → Bytes
asn_be asn = (asn / 2 ^ 24) % 256 ∷ (asn / 2 ^ 16) % 256 ∷ (asn / 2 ^ 8) % 256 ∷ asn % 256 ∷ []

abbrev pub or_false : Option Bool → Bool
or_false none = false
or_false (some b) = b

module _ (p : Platform) where
  unfoldable pub verify_parts : Bytes → String → String → List Bytes → Bool
  verify_parts key signature_hex context parts = elim (p.hex_to_bytes signature_hex) [
    | none ↦ false
    | some signature ↦
        if length signature == 64
        then is_verified (p.ed25519_verify signature (p.utf8 context ++ concat_parts parts) key)
        else false
  ]

  abbrev pub descriptor_of : Bytes → Bytes → Bool → Bytes → Bytes → ExitDescriptorPq
  descriptor_of exit_id exit_x dns_disabled key signature = record {
    exit_id = exit_id;
    exit_x25519_multihop_pubkey = exit_x;
    dns_disabled = dns_disabled;
    exit_mlkem768_pubkey = some key;
    signature = signature;
  }

  -- The `try` block around `verifyExitDescriptorPq`
  unfoldable pub is_pq_bound : Bytes → Bytes → Bytes → Bool → String → String → Bool
  is_pq_bound operational exit_id exit_x dns_disabled key_hex signature_hex = passed (do
    key ← or_fail (p.hex_to_bytes key_hex) WarrenPqErrorCode.bad_signature
    signature ← or_fail (p.hex_to_bytes signature_hex) WarrenPqErrorCode.bad_signature
    verify_exit_descriptor_pq p operational
        (descriptor_of exit_id exit_x dns_disabled key signature))

  -- The contexts `/v2` and `/v1` of an exit descriptor
  unfoldable pub classical_vouch : Bytes → CanonicalNode → Bytes → Bytes → Bool → Option NodeVouch
  unfolding verify_parts
  classical_vouch operational n exit_id exit_x dns_disabled =
      if verify_parts operational n.exit.signature operational_exit_v2
        (exit_id ∷ exit_x ∷ (dns_byte dns_disabled ∷ []) ∷ [])
      then some (record { dns_disabled = dns_disabled; exit_mlkem768_pubkey_hex = none })
      else if not
          (verify_parts operational n.exit.signature operational_exit_v1 (exit_id ∷ exit_x ∷ []))
      then none
      else if dns_disabled
      then none
      else some (record { dns_disabled = false; exit_mlkem768_pubkey_hex = none })

  -- The descriptor of the exit: post-quantum first, where it carries a key.
  unfoldable pub exit_vouch : Bytes → CanonicalNode → Bytes → Bytes → Bool → Option NodeVouch
  unfolding is_pq_bound classical_vouch
  exit_vouch operational n exit_id exit_x dns_disabled = elim n.exit.exit_mlkem768_pubkey [
    | none ↦ classical_vouch operational n exit_id exit_x dns_disabled
    | some key_hex ↦
        if is_pq_bound operational exit_id exit_x dns_disabled key_hex n.exit.signature
        then some (record { dns_disabled = dns_disabled; exit_mlkem768_pubkey_hex = some key_hex })
        else classical_vouch operational n exit_id exit_x dns_disabled
  ]

  abbrev bytes_of : String → Checked WarrenDirectoryErrorCode Bytes
  bytes_of hex = or_fail (p.hex_to_bytes hex) uncaught

  unfoldable pub descriptor_vouch :
      Bytes → CanonicalNode → Checked WarrenDirectoryErrorCode (Option NodeVouch)
  unfolding exit_vouch
  descriptor_vouch operational n = do
    exit_id ← bytes_of n.exit.exit_id
    exit_x ← bytes_of n.exit.exit_x25519_multihop_pubkey
    ok (exit_vouch operational n exit_id exit_x (or_false n.exit.dns_disabled))

  unfoldable pub attestation_vouch :
      Bytes → CanonicalNode → Bytes → Checked WarrenDirectoryErrorCode (Option NodeVouch)
  unfolding verify_parts asn_be descriptor_vouch
  attestation_vouch operational n relay_id = do
    identity ← bytes_of n.exit.exit_ed25519_pubkey
    if verify_parts operational n.attestation_hex operational_node_v1
          (relay_id ∷ identity ∷ asn_be n.asn ∷ p.utf8 n.country ∷ [])
        then descriptor_vouch operational n
        else ok none

  unfoldable pub vouch_node :
      Bytes → CanonicalNode → Checked WarrenDirectoryErrorCode (Option NodeVouch)
  unfolding verify_parts attestation_vouch
  vouch_node operational n = do
    relay_id ← bytes_of n.relay.relay_id
    relay_key ← bytes_of n.relay.relay_ed25519_pubkey
    if verify_parts operational n.relay.signature operational_relay_v1 (relay_id ∷ relay_key ∷ [])
        then attestation_vouch operational n relay_id
        else ok none
