-- ===== src/Discovery/Multihop/Examples.antt =====
-- The theorems on multi-hop directories at a directory of one exit, on a platform where every signature
-- verifies and a hex text decodes to every second of its codes.
use Prim.Native.String
use Prim.Native.String.{String}
use warren_sdk_ts.Prelude.{ℕ, zero, suc, ◌≡◌, ◌↔◌, ◌⊎◌, inl, refl, List, [], ◌∷◌, none, some, true}
use warren_sdk_ts.Discovery.Json.{
  Json, number, string, bool, array_of, object_of, codes, property, as_object, as_u64, as_fixed_hex,
  as_hex, has_shape, includes, is_hex_of,
}
use warren_sdk_ts.Discovery.Platform.{Bytes, Platform, ok}
use warren_sdk_ts.Discovery.PqDescriptor.{
  verify_exit_descriptor_pq, exit_descriptor_signing_payload_pq,
}
use warren_sdk_ts.Discovery.Multihop.Node.{
  CanonicalNode, validate_node, validate_exit, validate_relay,
}
use warren_sdk_ts.Discovery.Multihop.Vouch.{
  verify_parts, asn_be, is_pq_bound, exit_vouch, descriptor_vouch, attestation_vouch, vouch_node,
}
use warren_sdk_ts.Discovery.Multihop.{
  VerifiedExit, VerifiedDirectory, Directory, exit_of, directory_of, read_directory, pubkey, sig64,
  check_envelope, some_root, vouched_exits, verify_multihop_directory,
}
use warren_sdk_ts.Discovery.Multihop.Sound.{IsVerified, verify_multihop_directory-IsVerified}
use warren_sdk_ts.Discovery.Multihop.Exits.{
  IsTrusted, IsOperational, IsPqBound, IsV2Bound, verified_exit-IsTrusted, verified_exit-IsPqBound,
  verified_exit_dns,
}

abbrev halves : List ℕ → Bytes
halves [] = []
halves (c ∷ []) = []
halves (c ∷ d ∷ cs) = c ∷ halves cs

-- `n` times the digit `a`
abbrev fill : ℕ → String
fill zero = ""
fill (suc n) = String.◌++◌ "a" (fill n)

abbrev node_json : Json
node_json = object_of (
    (
      "relay",
      object_of (
          ("relay_id", string (fill 32))
          ∷ ("relay_ed25519_pubkey", string (fill 64))
          ∷ ("endpoint", string "1.2.3.4:443")
          ∷ ("signature", string (fill 128))
          ∷ []),
    )
    ∷ (
      "exit",
      object_of (
          ("exit_id", string (fill 32))
          ∷ ("exit_ed25519_pubkey", string (fill 64))
          ∷ ("exit_x25519_multihop_pubkey", string (fill 64))
          ∷ ("signature", string (fill 128))
          ∷ ("dns_disabled", bool true)
          ∷ ("exit_mlkem768_pubkey", string (fill 2368))
          ∷ []),
    )
    ∷ ("country", string "NL")
    ∷ ("city", string "Amsterdam")
    ∷ ("weight", number 5)
    ∷ ("attestation_hex", string (fill 128))
    ∷ [])

abbrev document : Json
document = object_of (
    ("version", number 2)
    ∷ ("nodes", array_of (node_json ∷ []))
    ∷ ("generation", number 3)
    ∷ ("signed_at", number 100)
    ∷ ("expires_at", number 200)
    ∷ ("operational_pubkey_hex", string (fill 64))
    ∷ ("operational_cert_hex", string (fill 128))
    ∷ ("server_pubkey_hex", string (fill 64))
    ∷ ("signature_hex", string (fill 128))
    ∷ [])

abbrev platform : Platform
platform = record {
  parse = λ s. some document;
  stringify = λ j. "";
  lower = λ s. s;
  is_url_ipv6 = λ s. true;
  utf8 = codes;
  hex_to_bytes = λ s. some (halves (codes s));
  bytes_to_hex = λ b. "";
  ed25519_verify = λ s m k. some true;
  is_point = λ b. true;
  base58_encode = λ b. "";
  base58_decode = λ s. none;
  blake2b = λ b. b;
}

abbrev node : CanonicalNode
node = record {
  relay = record {
    relay_id = fill 32;
    relay_ed25519_pubkey = fill 64;
    endpoint = "1.2.3.4:443";
    endpoint_v6 = none;
    cover_domain = none;
    tcp_fallback = none;
    signature = fill 128;
  };
  exit = record {
    exit_id = fill 32;
    exit_ed25519_pubkey = fill 64;
    exit_x25519_multihop_pubkey = fill 64;
    endpoint = none;
    cover_domain = none;
    signature = fill 128;
    dns_disabled = some true;
    exit_mlkem768_pubkey = some (fill 2368);
  };
  country = "NL";
  city = "Amsterdam";
  asn = 0;
  weight = 5;
  attestation_hex = fill 128;
  edge_cert_sha256 = none;
}

abbrev fields : Directory
fields = record {
  version = 2;
  nodes = node ∷ [];
  generation = 3;
  signed_at = 100;
  expires_at = 200;
  operational_pubkey_hex = fill 64;
  operational_cert_hex = fill 128;
  server_pubkey_hex = fill 64;
  signature_hex = fill 128;
}

abbrev exit : VerifiedExit
exit = exit_of node (record { dns_disabled = true; exit_mlkem768_pubkey_hex = some (fill 2368) })

abbrev directory : VerifiedDirectory
directory = directory_of platform fields (exit ∷ [])

reads : read_directory platform (some document) ≡ ok fields
unfolding read_directory as_object has_shape includes property as_u64 validate_node validate_exit
    validate_relay as_fixed_hex as_hex is_hex_of
reads = refl

verifies : verify_multihop_directory platform "{}" [] [] ≡ ok directory
unfolding verify_multihop_directory read_directory as_object has_shape includes property as_u64
    validate_node validate_exit validate_relay as_fixed_hex as_hex is_hex_of check_envelope pubkey
    sig64 some_root vouched_exits vouch_node attestation_vouch descriptor_vouch exit_vouch
    is_pq_bound verify_parts asn_be verify_exit_descriptor_pq exit_descriptor_signing_payload_pq
verifies = refl

verify_multihop_directory-IsVerified_example :
    (verify_multihop_directory platform "{}" [] [] ≡ ok directory)
    ↔ IsVerified platform "{}" [] [] directory
verify_multihop_directory-IsVerified_example =
    verify_multihop_directory-IsVerified platform "{}" [] [] directory

verified_exit-IsTrusted_example : IsTrusted platform "{}" [] [] exit
verified_exit-IsTrusted_example =
    verified_exit-IsTrusted platform "{}" [] [] directory verifies exit (inl refl)

verified_exit-IsPqBound_example :
    (operational : Bytes) × IsOperational platform "{}" operational
    × IsPqBound platform operational exit (fill 2368)
verified_exit-IsPqBound_example =
    verified_exit-IsPqBound platform "{}" [] [] directory exit (fill 2368) verifies (inl refl) refl

verified_exit_dns_example :
    (operational : Bytes) × IsOperational platform "{}" operational
    × (IsV2Bound platform operational exit
        ⊎ ((key_hex : String) × (exit.exit_mlkem768_pubkey_hex ≡ some key_hex)
            × IsPqBound platform operational exit key_hex))
verified_exit_dns_example =
    verified_exit_dns platform "{}" [] [] directory exit verifies (inl refl) refl
