-- ===== src/Discovery/Multihop/Node.antt =====
-- The nodes of a multi-hop directory: their validation, and their place in the signed text.
use Prim.Native.String.{String}
use warren_sdk_ts.Prelude.{ℕ, List, [], ◌∷◌, ◌++◌, Option, none, some, Bool, true, false}
use warren_sdk_ts.Discovery.Json.{
  Json, number, string, bool, object_of, property, as_object, as_string, as_u64, as_bool,
  as_fixed_hex, as_hex, optional_field, ◌>>=◌,
}
use warren_sdk_ts.Discovery.Verify.Node.{present}

pub record RelayPart : Type 0 where
  pub relay_id : String
  pub relay_ed25519_pubkey : String
  pub endpoint : String
  pub endpoint_v6 : Option String
  pub cover_domain : Option String
  pub tcp_fallback : Option Bool
  pub signature : String

pub record ExitPart : Type 0 where
  pub exit_id : String
  pub exit_ed25519_pubkey : String
  pub exit_x25519_multihop_pubkey : String
  pub endpoint : Option String
  pub cover_domain : Option String
  pub signature : String
  pub dns_disabled : Option Bool
  pub exit_mlkem768_pubkey : Option String

pub record CanonicalNode : Type 0 where
  pub relay : RelayPart
  pub exit : ExitPart
  pub country : String
  pub city : String
  pub asn : ℕ
  pub weight : ℕ
  pub attestation_hex : String
  pub edge_cert_sha256 : Option String

abbrev or_zero : Option ℕ → ℕ
or_zero none = 0
or_zero (some n) = n

module _ (lower : String → String) where
  unfoldable pub validate_exit : Option Json → Option ExitPart
  unfolding as_object property as_fixed_hex as_hex
  validate_exit raw = do
    exit ←
        as_object
          ("exit_id" ∷ "exit_ed25519_pubkey" ∷ "exit_x25519_multihop_pubkey" ∷ "signature" ∷ [])
          ("endpoint" ∷ "cover_domain" ∷ "dns_disabled" ∷ "exit_mlkem768_pubkey" ∷ []) raw
    exit_id ← as_fixed_hex lower 16 (property "exit_id" exit)
    ed25519 ← as_fixed_hex lower 32 (property "exit_ed25519_pubkey" exit)
    x25519 ← as_fixed_hex lower 32 (property "exit_x25519_multihop_pubkey" exit)
    endpoint ← optional_field as_string (property "endpoint" exit)
    cover_domain ← optional_field as_string (property "cover_domain" exit)
    signature ← as_fixed_hex lower 64 (property "signature" exit)
    dns_disabled ← optional_field as_bool (property "dns_disabled" exit)
    mlkem ← optional_field (as_hex lower) (property "exit_mlkem768_pubkey" exit)
    some (record {
      exit_id = exit_id;
      exit_ed25519_pubkey = ed25519;
      exit_x25519_multihop_pubkey = x25519;
      endpoint = endpoint;
      cover_domain = cover_domain;
      signature = signature;
      dns_disabled = dns_disabled;
      exit_mlkem768_pubkey = mlkem;
    })

  unfoldable pub validate_relay : Option Json → Option RelayPart
  unfolding as_object property as_fixed_hex
  validate_relay raw = do
    relay ←
        as_object ("relay_id" ∷ "relay_ed25519_pubkey" ∷ "endpoint" ∷ "signature" ∷ [])
          ("endpoint_v6" ∷ "cover_domain" ∷ "tcp_fallback" ∷ []) raw
    relay_id ← as_fixed_hex lower 16 (property "relay_id" relay)
    ed25519 ← as_fixed_hex lower 32 (property "relay_ed25519_pubkey" relay)
    endpoint ← as_string (property "endpoint" relay)
    endpoint_v6 ← optional_field as_string (property "endpoint_v6" relay)
    cover_domain ← optional_field as_string (property "cover_domain" relay)
    tcp_fallback ← optional_field as_bool (property "tcp_fallback" relay)
    signature ← as_fixed_hex lower 64 (property "signature" relay)
    some (record {
      relay_id = relay_id;
      relay_ed25519_pubkey = ed25519;
      endpoint = endpoint;
      endpoint_v6 = endpoint_v6;
      cover_domain = cover_domain;
      tcp_fallback = tcp_fallback;
      signature = signature;
    })

  unfoldable pub validate_node : Option Json → Option CanonicalNode
  unfolding as_object property as_u64 as_fixed_hex validate_exit validate_relay
  validate_node raw = do
    node ←
        as_object ("relay" ∷ "exit" ∷ "country" ∷ "city" ∷ "weight" ∷ "attestation_hex" ∷ [])
          ("asn" ∷ "edge_cert_sha256" ∷ []) raw
    exit ← validate_exit (property "exit" node)
    relay ← validate_relay (property "relay" node)
    country ← as_string (property "country" node)
    city ← as_string (property "city" node)
    asn ← optional_field as_u64 (property "asn" node)
    weight ← as_u64 (property "weight" node)
    attestation ← as_string (property "attestation_hex" node)
    edge_cert ← optional_field (as_fixed_hex lower 32) (property "edge_cert_sha256" node)
    some (record {
      relay = relay;
      exit = exit;
      country = country;
      city = city;
      asn = or_zero asn;
      weight = weight;
      attestation_hex = attestation;
      edge_cert_sha256 = edge_cert;
    })

-- A flag is written only where it is true.
abbrev pub when_true : String → Option Bool → List (String × Json)
when_true key (some true) = (key, bool true) ∷ []
when_true key (some false) = []
when_true key none = []

abbrev pub exit_json : ExitPart → Json
exit_json e = object_of (
    (("exit_id", string e.exit_id)
      ∷ ("exit_ed25519_pubkey", string e.exit_ed25519_pubkey)
      ∷ ("exit_x25519_multihop_pubkey", string e.exit_x25519_multihop_pubkey)
      ∷ [])
    ++ present "endpoint" string e.endpoint
    ++ present "cover_domain" string e.cover_domain
    ++ (("signature", string e.signature) ∷ [])
    ++ when_true "dns_disabled" e.dns_disabled
    ++ present "exit_mlkem768_pubkey" string e.exit_mlkem768_pubkey)

abbrev pub relay_json : RelayPart → Json
relay_json r = object_of (
    (("relay_id", string r.relay_id)
      ∷ ("relay_ed25519_pubkey", string r.relay_ed25519_pubkey)
      ∷ ("endpoint", string r.endpoint)
      ∷ [])
    ++ present "endpoint_v6" string r.endpoint_v6
    ++ present "cover_domain" string r.cover_domain
    ++ when_true "tcp_fallback" r.tcp_fallback
    ++ (("signature", string r.signature) ∷ []))

abbrev pub canonical_node : CanonicalNode → Json
canonical_node n = object_of (
    (("relay", relay_json n.relay)
      ∷ ("exit", exit_json n.exit)
      ∷ ("country", string n.country)
      ∷ ("city", string n.city)
      ∷ ("asn", number n.asn)
      ∷ ("weight", number n.weight)
      ∷ ("attestation_hex", string n.attestation_hex)
      ∷ [])
    ++ present "edge_cert_sha256" string n.edge_cert_sha256)
