-- ===== src/Discovery/Verify.antt =====
-- packages/core/src/discovery/verify.ts: the verification of a signed relay list. The messages of the
-- errors are left out.
pub mod Node
pub mod Read
pub mod Sound
pub mod Relays
mod Examples
use Prim.Native.String
use Prim.Native.String.{String}
use text.Mathlib.Text.{◌==◌ as str_eq}
use warren_sdk_ts.Prelude.{
  ℕ, zero, suc, ◌+◌, ◌-◌, ◌*◌, ◌/◌, ◌%◌, List, [], ◌∷◌, ◌++◌, map, Option, none, some, Bool, true,
  false, not, ◌&&◌, ◌||◌, ltb, leb, ◌==◌, if◌then◌else◌, length, get_or,
}
use warren_sdk_ts.Discovery.Json.{
  Json, number, string, array_of, object_of, property, as_object, as_array, as_string, as_u64,
  codes, is_digit, is_hex_of, each,
}
use warren_sdk_ts.Discovery.Platform.{
  Bytes, Platform, Checked, ok, fail, ◌>>=◌, ◌>>◌, require, or_fail,
}
use warren_sdk_ts.Discovery.Relay.{Relay, VerifiedRelayList}
use warren_sdk_ts.Discovery.Ss58.{decode_address, warren_ss58_prefix}
use Node.{Listener, Endpoint, CanonicalNode, validate_node, node_json}

pub data WarrenDiscoveryErrorCode : Type 0 where
  json unsupported_version server_pubkey_mismatch invalid_hex : WarrenDiscoveryErrorCode
  pubkey_not_on_curve bad_signature validity_too_long : WarrenDiscoveryErrorCode
  invalid_node_id invalid_endpoint_address endpoint_family_mismatch : WarrenDiscoveryErrorCode

abbrev pub signed_version : ℕ
signed_version = 10

-- 7 days in seconds
abbrev pub max_validity_secs : ℕ
max_validity_secs = 604800

-- `split('.')` of the codes
abbrev split_dots : List ℕ → List ℕ → List (List ℕ)
split_dots part [] = part ∷ []
split_dots part (c ∷ cs) =
    let closed = part ∷ split_dots [] cs in
    let longer = split_dots (part ++ c ∷ []) cs in if c == 46 then closed else longer

abbrev all_digits : List ℕ → Bool
all_digits [] = true
all_digits (c ∷ cs) = is_digit c && all_digits cs

abbrev value : ℕ → List ℕ → ℕ
value acc [] = acc
value acc (c ∷ cs) = value (10 * acc + (c - 48)) cs

-- `/^(0|[1-9]\d{0,2})$/`, and a value of at most 255
abbrev is_octet : List ℕ → Bool
is_octet [] = false
is_octet (c ∷ []) = is_digit c
is_octet (c ∷ d ∷ cs) =
    all_digits (c ∷ d ∷ cs) && not (c == 48) && leb (length cs) 1 && leb (value 0 (c ∷ d ∷ cs)) 255

abbrev all_octets : List (List ℕ) → Bool
all_octets [] = true
all_octets (part ∷ parts) = is_octet part && all_octets parts

unfoldable pub is_ipv4 : String → Bool
is_ipv4 s = length (split_dots [] (codes s)) == 4 && all_octets (split_dots [] (codes s))

abbrev has_colon : List ℕ → Bool
has_colon [] = false
has_colon (c ∷ cs) = c == 58 || has_colon cs

abbrev digits : List String
digits = "0" ∷ "1" ∷ "2" ∷ "3" ∷ "4" ∷ "5" ∷ "6" ∷ "7" ∷ "8" ∷ "9" ∷ []

-- A number in decimal. A safe integer has at most 16 digits.
unfoldable decimal : ℕ → ℕ → String → String
decimal zero n tail = tail
decimal (suc fuel) n tail =
    let longer = decimal fuel (n / 10) (String.◌++◌ (get_or digits (n % 10) "") tail) in
    if ltb n 10 then String.◌++◌ (get_or digits n "") tail else longer

unfoldable pub show_number : ℕ → String
unfolding decimal
show_number n = decimal 16 n ""

-- The addresses of an endpoint's listeners: only those on QUIC can be dialled.
unfoldable pub dialable : Bool → String → List Listener → List String
unfolding show_number
dialable is_v6 addr [] = []
dialable is_v6 addr (l ∷ ls) =
    let rest = dialable is_v6 addr ls in
    let host = if is_v6 then String.◌++◌ "[" (String.◌++◌ addr "]") else addr in
    if str_eq l.transport "quic"
    then String.◌++◌ host (String.◌++◌ ":" (show_number l.port)) ∷ rest
    else rest

-- What the loop over a node's endpoints has gathered.
pub record Addresses : Type 0 where
  pub has_ipv4 : Bool
  pub has_ipv6 : Bool
  pub addrs : List String

abbrev pub no_addresses : Addresses
no_addresses = record { has_ipv4 = false; has_ipv6 = false; addrs = [] }

module _ (p : Platform) where
  unfoldable pub is_ipv6 : String → Bool
  is_ipv6 s = has_colon (codes s) && p.is_url_ipv6 s

  unfoldable ipv4_endpoint : Addresses → Endpoint → Checked WarrenDiscoveryErrorCode Addresses
  unfolding is_ipv4 dialable
  ipv4_endpoint found e = do
    require (is_ipv4 e.addr) endpoint_family_mismatch
    ok (record {
      has_ipv4 = true;
      has_ipv6 = found.has_ipv6;
      addrs = found.addrs ++ dialable false e.addr e.listeners;
    })

  unfoldable ipv6_endpoint : Addresses → Endpoint → Checked WarrenDiscoveryErrorCode Addresses
  unfolding is_ipv6 dialable
  ipv6_endpoint found e = do
    require (is_ipv6 e.addr) endpoint_family_mismatch
    ok (record {
      has_ipv4 = found.has_ipv4;
      has_ipv6 = true;
      addrs = found.addrs ++ dialable true e.addr e.listeners;
    })

  unfoldable pub by_family : Addresses → Endpoint → Checked WarrenDiscoveryErrorCode Addresses
  unfolding ipv4_endpoint ipv6_endpoint
  by_family found e =
      if str_eq e.family "ipv4"
      then ipv4_endpoint found e
      else if str_eq e.family "ipv6"
      then ipv6_endpoint found e
      else fail endpoint_family_mismatch

  unfoldable pub add_endpoint : Addresses → Endpoint → Checked WarrenDiscoveryErrorCode Addresses
  unfolding is_ipv4 is_ipv6 by_family
  add_endpoint found e = do
    require (is_ipv4 e.addr || is_ipv6 e.addr) invalid_endpoint_address
    by_family found e

  unfoldable pub addresses : Addresses → List Endpoint → Checked WarrenDiscoveryErrorCode Addresses
  unfolding add_endpoint
  addresses found [] = ok found
  addresses found (e ∷ es) = do next ← add_endpoint found e; addresses next es

  abbrev pub endpoint_id : String → Checked WarrenDiscoveryErrorCode String
  endpoint_id id = if is_hex_of 64 id then ok (p.lower id) else (do
    bytes ← or_fail (decode_address p id warren_ss58_prefix) invalid_node_id
    ok (p.bytes_to_hex bytes))

  abbrev pub relay_of : CanonicalNode → String → Addresses → Relay
  relay_of node id found = record {
    endpoint_id_hex = id;
    exit_id_hex = p.lower node.exit_id;
    country = node.location.country;
    city = node.location.city;
    weight = node.weight;
    active = node.active;
    ipv6_egress = node.egress.ipv6;
    has_ipv4 = found.has_ipv4;
    has_ipv6 = found.has_ipv6;
    addrs = found.addrs;
    cover_domain = node.cover_domain;
  }

  unfoldable pub resolve_relay : CanonicalNode → Checked WarrenDiscoveryErrorCode Relay
  unfolding is_hex_of addresses decode_address
  resolve_relay node = do
    id ← endpoint_id node.id
    require (is_hex_of 32 node.exit_id) invalid_node_id
    found ← addresses no_addresses node.endpoints
    ok (relay_of node id found)

  unfoldable pub resolve_relays : List CanonicalNode → Checked WarrenDiscoveryErrorCode (List Relay)
  unfolding resolve_relay
  resolve_relays [] = ok []
  resolve_relays (n ∷ ns) = do
    relay ← resolve_relay n
    relays ← resolve_relays ns
    ok (relay ∷ relays)

abbrev pub is_pinned : (String → String) → String → List String → Bool
is_pinned lower key [] = false
is_pinned lower key (pin ∷ pins) = str_eq (lower pin) (lower key) || is_pinned lower key pins

-- No pins at all is trust on first use.
abbrev pub pins_allow : (String → String) → String → List String → Bool
pins_allow lower key [] = true
pins_allow lower key (pin ∷ pins) = is_pinned lower key (pin ∷ pins)

-- The fields of the signed list, validated.
pub record SignedList : Type 0 where
  pub version : ℕ
  pub nodes : List CanonicalNode
  pub generation : ℕ
  pub signed_at : ℕ
  pub expires_at : ℕ
  pub server_pubkey_hex : String
  pub signature_hex : String

-- What is signed: the fields less `signature_hex`, in their fixed order.
abbrev pub unsigned_json : SignedList → Json
unsigned_json list = object_of (
    ("version", number list.version)
    ∷ ("nodes", array_of (map node_json list.nodes))
    ∷ ("generation", number list.generation)
    ∷ ("signed_at", number list.signed_at)
    ∷ ("expires_at", number list.expires_at)
    ∷ ("server_pubkey_hex", string list.server_pubkey_hex)
    ∷ [])

-- The fields, read in the order of the source; the version is checked before the others.
unfoldable pub read_list : Option Json → Checked WarrenDiscoveryErrorCode SignedList
unfolding as_object property as_u64 validate_node
read_list parsed = do
  top ←
      or_fail
        (as_object
          ("version" ∷ "nodes" ∷ "generation" ∷ "signed_at" ∷ "expires_at" ∷ "server_pubkey_hex"
            ∷ "signature_hex" ∷ [])
          [] parsed)
        json
  version ← or_fail (as_u64 (property "version" top)) json
  require (version == signed_version) unsupported_version
  server_pubkey_hex ← or_fail (as_string (property "server_pubkey_hex" top)) json
  signature_hex ← or_fail (as_string (property "signature_hex" top)) json
  generation ← or_fail (as_u64 (property "generation" top)) json
  signed_at ← or_fail (as_u64 (property "signed_at" top)) json
  expires_at ← or_fail (as_u64 (property "expires_at" top)) json
  raw_nodes ← or_fail (as_array (property "nodes" top)) json
  nodes ← or_fail (each validate_node raw_nodes) json
  ok (record {
    version = version;
    nodes = nodes;
    generation = generation;
    signed_at = signed_at;
    expires_at = expires_at;
    server_pubkey_hex = server_pubkey_hex;
    signature_hex = signature_hex;
  })

module _ (p : Platform) where
  -- The checks of the fields, from the pins to the validity window.
  unfoldable pub check_list : SignedList → List String → Checked WarrenDiscoveryErrorCode (Unit {0})
  check_list list pins = do
    require (pins_allow p.lower list.server_pubkey_hex pins) server_pubkey_mismatch
    key ← or_fail (p.hex_to_bytes list.server_pubkey_hex) invalid_hex
    signature ← or_fail (p.hex_to_bytes list.signature_hex) invalid_hex
    require (length key == 32 && length signature == 64) invalid_hex
    signature_ok ←
        or_fail (p.ed25519_verify signature (p.utf8 (p.stringify (unsigned_json list))) key)
          pubkey_not_on_curve
    require signature_ok bad_signature
    require (leb list.expires_at (list.signed_at + max_validity_secs)) validity_too_long

  unfoldable pub verify_signed_relay_list :
      String → List String → Checked WarrenDiscoveryErrorCode VerifiedRelayList
  unfolding read_list check_list resolve_relays
  verify_signed_relay_list signed_json pins = do
    parsed ← or_fail (p.parse signed_json) json
    list ← read_list (some parsed)
    check_list list pins
    relays ← resolve_relays p list.nodes
    ok (record {
      generation = list.generation;
      signed_at = list.signed_at;
      expires_at = list.expires_at;
      relays = relays;
      server_pubkey_hex = p.lower list.server_pubkey_hex;
    })
