-- ===== src/Discovery/Multihop.antt =====
-- packages/core/src/discovery/multihop.ts: the verification of a signed multi-hop directory. The
-- messages of the errors are left out.
pub mod Node
pub mod Vouch
pub mod Signatures
pub mod Backed
pub mod Read
pub mod Sound
pub mod Exits
mod Examples
use Prim.Native.String.{String}
use warren_sdk_ts.Prelude.{
  ℕ, ◌+◌, ◌-◌, List, [], ◌∷◌, map, Option, none, some, Bool, true, false, leb, ◌==◌, ◌||◌,
  if◌then◌else◌, length,
}
use warren_sdk_ts.Discovery.Json.{
  Json, number, string, array_of, object_of, property, as_object, as_array, as_string, as_u64, each,
}
use warren_sdk_ts.Discovery.Platform.{
  Bytes, Platform, Checked, ok, fail, ◌>>=◌, ◌>>◌, require, or_fail,
}
use warren_sdk_ts.Discovery.Verify.{max_validity_secs, pins_allow}
use Node.{CanonicalNode, validate_node, canonical_node}
use Vouch.{
  WarrenDirectoryErrorCode, json, unsupported_version, server_pubkey_mismatch, invalid_hex,
  bad_envelope_signature, bad_operational_cert, validity_too_long, root_operational_v1, NodeVouch,
  verify_parts, vouch_node,
}

pub record VerifiedExit : Type 0 where
  pub exit_id_hex : String
  pub exit_ed25519_pubkey_hex : String
  pub exit_x25519_pubkey_hex : String
  pub endpoint : String
  pub endpoint_v6 : Option String
  pub country : String
  pub city : String
  pub weight : ℕ
  pub dns_disabled : Bool
  pub edge_cert_sha256 : Option String
  pub cover_domain : Option String
  pub exit_mlkem768_pubkey_hex : Option String

pub record VerifiedDirectory : Type 0 where
  pub exits : List VerifiedExit
  pub generation : ℕ
  pub signed_at : ℕ
  pub expires_at : ℕ
  pub dropped : ℕ
  pub server_pubkey_hex : String

unfoldable pub is_directory_expired : VerifiedDirectory → ℕ → Bool
is_directory_expired dir now = leb dir.expires_at now

abbrev pub multihop_directory_version : ℕ
multihop_directory_version = 2

-- The fields of the directory, validated.
pub record Directory : Type 0 where
  pub version : ℕ
  pub nodes : List CanonicalNode
  pub generation : ℕ
  pub signed_at : ℕ
  pub expires_at : ℕ
  pub operational_pubkey_hex : String
  pub operational_cert_hex : String
  pub server_pubkey_hex : String
  pub signature_hex : String

-- What the server key signs.
abbrev pub envelope_json : Directory → Json
envelope_json d = object_of (
    ("version", number d.version)
    ∷ ("nodes", array_of (map canonical_node d.nodes))
    ∷ ("generation", number d.generation)
    ∷ ("signed_at", number d.signed_at)
    ∷ ("expires_at", number d.expires_at)
    ∷ ("operational_pubkey_hex", string d.operational_pubkey_hex)
    ∷ ("operational_cert_hex", string d.operational_cert_hex)
    ∷ ("server_pubkey_hex", string d.server_pubkey_hex)
    ∷ [])

abbrev pub exit_of : CanonicalNode → NodeVouch → VerifiedExit
exit_of n vouch = record {
  exit_id_hex = n.exit.exit_id;
  exit_ed25519_pubkey_hex = n.exit.exit_ed25519_pubkey;
  exit_x25519_pubkey_hex = n.exit.exit_x25519_multihop_pubkey;
  endpoint = n.relay.endpoint;
  endpoint_v6 = n.relay.endpoint_v6;
  country = n.country;
  city = n.city;
  weight = n.weight;
  dns_disabled = vouch.dns_disabled;
  edge_cert_sha256 = n.edge_cert_sha256;
  cover_domain = n.exit.cover_domain;
  exit_mlkem768_pubkey_hex = vouch.exit_mlkem768_pubkey_hex;
}

abbrev pub kept : CanonicalNode → Option NodeVouch → List VerifiedExit → List VerifiedExit
kept n none exits = exits
kept n (some vouch) exits = exit_of n vouch ∷ exits

module _ (p : Platform) where
  -- The fields, read in the order of the source; the version is checked before the others.
  unfoldable pub read_directory : Option Json → Checked WarrenDirectoryErrorCode Directory
  unfolding as_object property as_u64 validate_node
  read_directory parsed = do
    top ←
        or_fail
          (as_object
            ("version" ∷ "nodes" ∷ "generation" ∷ "signed_at" ∷ "expires_at"
              ∷ "operational_pubkey_hex" ∷ "operational_cert_hex" ∷ "server_pubkey_hex"
              ∷ "signature_hex" ∷ [])
            [] parsed)
          json
    version ← or_fail (as_u64 (property "version" top)) json
    require (version == multihop_directory_version) unsupported_version
    server_pubkey_hex ← or_fail (as_string (property "server_pubkey_hex" top)) json
    operational_pubkey_hex ← or_fail (as_string (property "operational_pubkey_hex" top)) json
    operational_cert_hex ← or_fail (as_string (property "operational_cert_hex" top)) json
    signature_hex ← or_fail (as_string (property "signature_hex" top)) json
    generation ← or_fail (as_u64 (property "generation" top)) json
    signed_at ← or_fail (as_u64 (property "signed_at" top)) json
    expires_at ← or_fail (as_u64 (property "expires_at" top)) json
    raw_nodes ← or_fail (as_array (property "nodes" top)) json
    nodes ← or_fail (each (validate_node p.lower) raw_nodes) json
    ok (record {
      version = version;
      nodes = nodes;
      generation = generation;
      signed_at = signed_at;
      expires_at = expires_at;
      operational_pubkey_hex = operational_pubkey_hex;
      operational_cert_hex = operational_cert_hex;
      server_pubkey_hex = server_pubkey_hex;
      signature_hex = signature_hex;
    })

  unfoldable pub pubkey : String → Checked WarrenDirectoryErrorCode Bytes
  pubkey hex = do
    bytes ← or_fail (p.hex_to_bytes hex) invalid_hex
    require (length bytes == 32) invalid_hex
    require (p.is_point bytes) invalid_hex
    ok bytes

  unfoldable pub sig64 : String → Checked WarrenDirectoryErrorCode Bytes
  sig64 hex = do
    bytes ← or_fail (p.hex_to_bytes hex) invalid_hex
    require (length bytes == 64) invalid_hex
    ok bytes

  -- The pins, the envelope signature and the validity window
  unfoldable pub check_envelope :
      Directory → List String → Checked WarrenDirectoryErrorCode (Unit {0})
  unfolding pubkey sig64
  check_envelope d pins = do
    require (pins_allow p.lower d.server_pubkey_hex pins) server_pubkey_mismatch
    key ← pubkey d.server_pubkey_hex
    signature ← sig64 d.signature_hex
    envelope_ok ←
        or_fail (p.ed25519_verify signature (p.utf8 (p.stringify (envelope_json d))) key)
          bad_envelope_signature
    require envelope_ok bad_envelope_signature
    require (leb d.expires_at (d.signed_at + max_validity_secs)) validity_too_long

  abbrev pub certifies : Bytes → String → Checked WarrenDirectoryErrorCode Bytes → Bool
  certifies operational cert_hex (ok root) =
      verify_parts p root cert_hex root_operational_v1 (operational ∷ [])
  certifies operational cert_hex (fail e) = false

  unfoldable pub some_root : Bytes → String → List String → Bool
  unfolding pubkey
  some_root operational cert_hex [] = false
  some_root operational cert_hex (root ∷ roots) =
      certifies operational cert_hex (pubkey root) || some_root operational cert_hex roots

  -- No roots at all is trust on first use.
  abbrev pub roots_allow : Bytes → String → List String → Bool
  roots_allow operational cert_hex [] = true
  roots_allow operational cert_hex (root ∷ roots) = some_root operational cert_hex (root ∷ roots)

  unfoldable pub vouched_exits :
      Bytes → List CanonicalNode → Checked WarrenDirectoryErrorCode (List VerifiedExit)
  unfolding vouch_node
  vouched_exits operational [] = ok []
  vouched_exits operational (n ∷ ns) = do
    vouch ← vouch_node p operational n
    exits ← vouched_exits operational ns
    ok (kept n vouch exits)

  abbrev pub directory_of : Directory → List VerifiedExit → VerifiedDirectory
  directory_of d exits = record {
    exits = exits;
    generation = d.generation;
    signed_at = d.signed_at;
    expires_at = d.expires_at;
    dropped = length d.nodes - length exits;
    server_pubkey_hex = p.lower d.server_pubkey_hex;
  }

  unfoldable pub verify_multihop_directory :
      String → List String → List String → Checked WarrenDirectoryErrorCode VerifiedDirectory
  unfolding read_directory check_envelope pubkey some_root vouched_exits
  verify_multihop_directory text pins roots = do
    parsed ← or_fail (p.parse text) json
    d ← read_directory (some parsed)
    check_envelope d pins
    operational ← pubkey d.operational_pubkey_hex
    require (roots_allow operational d.operational_cert_hex roots) bad_operational_cert
    exits ← vouched_exits operational d.nodes
    ok (directory_of d exits)
