-- ===== src/Discovery/Verify/Examples.antt =====
-- The theorems on signed relay lists, addresses and descriptors at concrete inputs, on a platform where
-- every signature verifies and a hex text decodes to every second of its codes.
use Prim.Native.Char.{code}
use Prim.Native.String
use Prim.Native.String.{String}
use warren_sdk_ts.Prelude.{
  All, ℕ, zero, suc, ◌+◌, ◌≡◌, ◌∙◌, ap, ◌==◌, if◌then◌else◌, ◌↔◌, refl, arith, List, [], ◌∷◌, map,
  none, some, true, false,
}
use warren_sdk_ts.Discovery.Json.{
  Json, number, string, bool, array_of, object_of, codes, property, as_object, as_u64, has_shape,
  includes, is_hex_of,
}
use warren_sdk_ts.Discovery.Platform.{Bytes, Platform, ok}
use warren_sdk_ts.Discovery.PqDescriptor.{
  ExitDescriptorPq, available, verify_exit_descriptor_pq, exit_descriptor_signing_payload_pq,
  negotiate_pq,
}
use warren_sdk_ts.Discovery.Relay.{Relay, VerifiedRelayList}
use warren_sdk_ts.Discovery.Ss58.{encode_address, decode_address}
use warren_sdk_ts.Discovery.Ss58.RoundTrip.{decode_address-encode_address}
use warren_sdk_ts.Discovery.Verify.Node.{
  CanonicalNode, Endpoint, validate_node, validate_endpoint, validate_listener,
}
use warren_sdk_ts.Discovery.Verify.{
  is_ipv4, is_ipv6, dialable, show_number, decimal, add_endpoint, by_family, ipv4_endpoint,
  addresses, resolve_relay, resolve_relays, read_list, check_list, verify_signed_relay_list,
}
use warren_sdk_ts.Discovery.Verify.Sound.{IsVerified, verify_signed_relay_list-IsVerified}
use warren_sdk_ts.Discovery.Stores.History.{HaveOneKey, run}
use warren_sdk_ts.Discovery.Stores.Signed.{IsOf, fetched, fetched-run-HaveOneKey}

abbrev halves : List ℕ → Bytes
halves [] = []
halves (c ∷ []) = []
halves (c ∷ d ∷ cs) = c ∷ halves cs

abbrev fill : ℕ → String
fill zero = ""
fill (suc n) = String.◌++◌ "a" (fill n)

abbrev node_json : Json
node_json = object_of (
    ("id", string (fill 64))
    ∷ ("exit_id", string (fill 32))
    ∷ ("location", object_of (("country", string "NL") ∷ ("city", string "Amsterdam") ∷ []))
    ∷ ("weight", number 5)
    ∷ ("active", bool true)
    ∷ ("egress", object_of (("ipv4", bool true) ∷ ("ipv6", bool false) ∷ []))
    ∷ (
      "endpoints",
      array_of (
          object_of (
            ("addr", string "10.0.0.7")
            ∷ ("family", string "ipv4")
            ∷ (
              "listeners",
              array_of (
                  object_of (
                    ("port", number 443)
                    ∷ ("transport", string "quic")
                    ∷ ("alpn", string "h3")
                    ∷ [])
                  ∷ []),
            )
            ∷ [])
          ∷ []),
    )
    ∷ [])

abbrev document : Json
document = object_of (
    ("version", number 10)
    ∷ ("nodes", array_of (node_json ∷ []))
    ∷ ("generation", number 3)
    ∷ ("signed_at", number 100)
    ∷ ("expires_at", number 200)
    ∷ ("server_pubkey_hex", string (fill 64))
    ∷ ("signature_hex", string (fill 128))
    ∷ [])

-- A stand-in for base58: every byte as that many `a` and a `b`
abbrev unary : ℕ → String → String
unary zero s = String.◌∷◌ "b" s
unary (suc n) s = String.◌∷◌ "a" (unary n s)

abbrev to_text : Bytes → String
to_text [] = ""
to_text (b ∷ bs) = unary b (to_text bs)

abbrev from_text : ℕ → String → Bytes
from_text acc String.[] = []
from_text acc (String.◌∷◌ c s) =
    let longer = from_text (suc acc) s in
    let closed = acc ∷ from_text 0 s in if code c == 97 then longer else closed

from_text-unary : (acc n : ℕ) (s : String) → from_text acc (unary n s) ≡ (acc + n) ∷ from_text 0 s
from_text-unary acc zero s = let same : acc + 0 ≡ acc = omega arith in rw same refl
from_text-unary acc (suc n) s =
    let same : acc + suc n ≡ suc acc + n = omega arith in rw same (from_text-unary (suc acc) n s)

from_text-to_text : (bs : Bytes) → from_text 0 (to_text bs) ≡ bs
from_text-to_text [] = refl
from_text-to_text (b ∷ bs) =
    let same : 0 + b ≡ b = omega arith in
    from_text-unary 0 b (to_text bs) ∙ rw (same, from_text-to_text bs) refl

abbrev platform : Platform
platform = record {
  parse = λ s. some document;
  stringify = λ j. "";
  lower = λ s. s;
  is_url_ipv6 = λ s. true;
  utf8 = codes;
  hex_to_bytes = λ s. some (halves (codes s));
  bytes_to_hex = λ b. "";
  ed25519_verify = λ s m k. some true;
  is_point = λ b. true;
  base58_encode = to_text;
  base58_decode = λ s. some (from_text 0 s);
  blake2b = λ b. 1 ∷ 2 ∷ b;
}

abbrev relay : Relay
relay = record {
  endpoint_id_hex = fill 64;
  exit_id_hex = fill 32;
  country = "NL";
  city = "Amsterdam";
  weight = 5;
  active = true;
  ipv6_egress = false;
  has_ipv4 = true;
  has_ipv6 = false;
  addrs = "10.0.0.7:443" ∷ [];
  cover_domain = none;
}

abbrev list : VerifiedRelayList
list = record {
  generation = 3;
  signed_at = 100;
  expires_at = 200;
  relays = relay ∷ [];
  server_pubkey_hex = fill 64;
}

test_verify : verify_signed_relay_list platform "{}" [] ≡ ok list
unfolding verify_signed_relay_list read_list as_object has_shape includes property as_u64
    validate_node validate_endpoint validate_listener check_list resolve_relays resolve_relay
    is_hex_of addresses add_endpoint by_family ipv4_endpoint is_ipv4 is_ipv6 dialable show_number
    decimal
test_verify = refl

verify_signed_relay_list-IsVerified_example :
    (verify_signed_relay_list platform "{}" [] ≡ ok list) ↔ IsVerified platform "{}" [] list
verify_signed_relay_list-IsVerified_example =
    verify_signed_relay_list-IsVerified platform "{}" [] list

abbrev endpoint : Endpoint
endpoint = record {
  addr = "10.0.0.7";
  family = "ipv4";
  listeners = record { port = 443; transport = "quic"; alpn = "h3" } ∷ [];
}

abbrev node : CanonicalNode
node = record {
  id = fill 64;
  exit_id = fill 32;
  location = record { country = "NL"; city = "Amsterdam" };
  weight = 5;
  active = true;
  egress = record { ipv4 = true; ipv6 = false };
  endpoints = endpoint ∷ [];
  cover_domain = none;
  port_forward = none;
  tcp_fallback = none;
}

resolves : resolve_relay platform node ≡ ok relay
unfolding resolve_relay is_hex_of addresses add_endpoint by_family ipv4_endpoint is_ipv4 is_ipv6
    dialable show_number decimal
resolves = refl

fetched-run-HaveOneKey_example :
    let lists =
      run
        (map (fetched platform) (("{}", 150) ∷ ("[]", 160) ∷ []))
        (record { floor = some 0; pin = some none }) in
    All (IsOf platform) lists × HaveOneKey lists
fetched-run-HaveOneKey_example =
    fetched-run-HaveOneKey platform (λ s. refl) (("{}", 150) ∷ ("[]", 160) ∷ []) (some 0)

abbrev bytes : ℕ → Bytes
bytes zero = []
bytes (suc n) = n ∷ bytes n

abbrev descriptor : ExitDescriptorPq
descriptor = record {
  exit_id = bytes 16;
  exit_x25519_multihop_pubkey = bytes 32;
  dns_disabled = true;
  exit_mlkem768_pubkey = some (bytes 1184);
  signature = bytes 64;
}

negotiates : negotiate_pq platform (bytes 32) descriptor true ≡ ok available
unfolding negotiate_pq verify_exit_descriptor_pq exit_descriptor_signing_payload_pq
negotiates = refl

decode_address-encode_address_example :
    (address : String) × (encode_address platform (bytes 32) 13295 ≡ some address)
    × (decode_address platform address 13295 ≡ some (bytes 32))
decode_address-encode_address_example =
    decode_address-encode_address platform (λ bs. ap some (from_text-to_text bs))
      (λ bs. omega arith) 13295 (bytes 32) (omega arith) refl
