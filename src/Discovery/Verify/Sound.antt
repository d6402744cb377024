-- ===== src/Discovery/Verify/Sound.antt =====
-- When a signed relay list is verified.
use Prim.Native.String.{String}
use warren_sdk_ts.Prelude.{◌+◌, ◌≤◌, ◌≡◌, ◌↔◌, refl, List, [], ◌∷◌, some, true, arith, length}
use warren_sdk_ts.Discovery.Json.{Json}
use warren_sdk_ts.Discovery.Platform.{Bytes, Platform, Checked, ok, fail, ◌>>=◌}
use warren_sdk_ts.Discovery.Fields.{IsPinned}
use warren_sdk_ts.Discovery.Relay.{Relay, VerifiedRelayList}
use warren_sdk_ts.Discovery.Verify.Node.{CanonicalNode}
use warren_sdk_ts.Discovery.Verify.Read.{IsList, read_list-IsList, pins_allow-IsPinned}
use warren_sdk_ts.Discovery.Verify.Relays.{Resolves, resolve_relay-Resolves}
use warren_sdk_ts.Discovery.Verify.{
  WarrenDiscoveryErrorCode, SignedList, max_validity_secs, resolve_relay, pins_allow, unsigned_json,
  read_list, check_list, resolve_relays, verify_signed_relay_list,
}

-- The key and the signature of a list, as bytes that verify over the canonical text.
pub record IsSigned (p : Platform) (list : SignedList) : Type 0 where
  pub key : Bytes
  pub signature : Bytes
  pub key_hex : p.hex_to_bytes list.server_pubkey_hex ≡ some key
  pub signature_hex : p.hex_to_bytes list.signature_hex ≡ some signature
  pub key_length : length key ≡ 32
  pub signature_length : length signature ≡ 64
  pub verifies :
      p.ed25519_verify signature (p.utf8 (p.stringify (unsigned_json list))) key ≡ some true

module _ (p : Platform) (list : SignedList) (pins : List String) where
  check_list-passed :
      check_list p list pins ≡ ok tt
      → (pins_allow p.lower list.server_pubkey_hex pins ≡ true)
        × IsSigned p list
        × (list.expires_at ≤ list.signed_at + max_validity_secs)
  unfolding check_list
  check_list-passed h = ground arith

  check_list-passes :
      pins_allow p.lower list.server_pubkey_hex pins ≡ true
      → IsSigned p list
      → list.expires_at ≤ list.signed_at + max_validity_secs
      → check_list p list pins ≡ ok tt
  unfolding check_list
  check_list-passes pinned s fresh = ground arith

-- The relays are those of the nodes, one for each in their order.
abbrev pub AllResolve : Platform → List CanonicalNode → List Relay → Type 0
AllResolve p [] [] = Unit {0}
AllResolve p [] (relay ∷ relays) = ⊥
AllResolve p (node ∷ nodes) [] = ⊥
AllResolve p (node ∷ nodes) (relay ∷ relays) = Resolves p node relay × AllResolve p nodes relays

resolve_relays-AllResolve :
    (p : Platform) (nodes : List CanonicalNode) (relays : List Relay)
    → resolve_relays p nodes ≡ ok relays
    → AllResolve p nodes relays
unfolding resolve_relays
resolve_relays-AllResolve p [] [] h = tt
resolve_relays-AllResolve p [] (relay ∷ relays) h = absurd cc
resolve_relays-AllResolve p (node ∷ nodes) relays h =
    go (resolve_relay p node) (resolve_relays p nodes) refl h (resolve_relays-AllResolve p nodes)
  where
    go :
        (c : Checked WarrenDiscoveryErrorCode Relay)
        (r : Checked WarrenDiscoveryErrorCode (List Relay))
        → resolve_relay p node ≡ c
        → (c >>= λ relay. r >>= λ rest. ok (relay ∷ rest)) ≡ ok relays
        → ((rest : List Relay) → r ≡ ok rest → AllResolve p nodes rest)
        → AllResolve p (node ∷ nodes) relays
    go (fail x) r e k ih = absurd cc
    go (ok relay) (fail x) e k ih = absurd cc
    go (ok relay) (ok rest) e k ih =
        let same : relays ≡ relay ∷ rest = cc in
        rw same (resolve_relay-Resolves p node relay e, ih rest refl)

-- The steps of a verification that passes.
record Passed (p : Platform) (signed_json : String) (pins : List String) (out : VerifiedRelayList)
    : Type 0 where
  parsed : Json
  list : SignedList
  parses : p.parse signed_json ≡ some parsed
  reads : read_list (some parsed) ≡ ok list
  pinned : pins_allow p.lower list.server_pubkey_hex pins ≡ true
  signed : IsSigned p list
  within_validity : list.expires_at ≤ list.signed_at + max_validity_secs
  resolved : resolve_relays p list.nodes ≡ ok out.relays
  generation : out.generation ≡ list.generation
  signed_at : out.signed_at ≡ list.signed_at
  expires_at : out.expires_at ≡ list.expires_at
  server_key : out.server_pubkey_hex ≡ p.lower list.server_pubkey_hex

-- What it takes for a list to be verified as `out`.
pub record IsVerified (p : Platform) (signed_json : String) (pins : List String)
    (out : VerifiedRelayList) : Type 0 where
  pub parsed : Json
  pub list : SignedList
  pub parses : p.parse signed_json ≡ some parsed
  pub reads : read_list (some parsed) ≡ ok list
  pub fields : IsList parsed list
  pub pinned : pins_allow p.lower list.server_pubkey_hex pins ≡ true
  pub pin : IsPinned p.lower list.server_pubkey_hex pins
  pub signed : IsSigned p list
  pub within_validity : list.expires_at ≤ list.signed_at + 604800
  pub resolved : resolve_relays p list.nodes ≡ ok out.relays
  pub relays : AllResolve p list.nodes out.relays
  pub generation : out.generation ≡ list.generation
  pub signed_at : out.signed_at ≡ list.signed_at
  pub expires_at : out.expires_at ≡ list.expires_at
  pub server_key : out.server_pubkey_hex ≡ p.lower list.server_pubkey_hex

module _ (p : Platform) (signed_json : String) (pins : List String) (out : VerifiedRelayList) where
  answer-Passed :
      verify_signed_relay_list p signed_json pins ≡ ok out → Passed p signed_json pins out
  unfolding verify_signed_relay_list
  answer-Passed h = ground (arith, check_list-passed p)

  answer-IsVerified :
      verify_signed_relay_list p signed_json pins ≡ ok out → IsVerified p signed_json pins out
  answer-IsVerified h =
      let v = answer-Passed h in
      record {
        parsed = v.parsed;
        list = v.list;
        parses = v.parses;
        reads = v.reads;
        fields = read_list-IsList v.parsed v.list v.reads;
        pinned = v.pinned;
        pin = pins_allow-IsPinned p.lower v.list.server_pubkey_hex pins v.pinned;
        signed = v.signed;
        within_validity = v.within_validity;
        resolved = v.resolved;
        relays = resolve_relays-AllResolve p v.list.nodes out.relays v.resolved;
        generation = v.generation;
        signed_at = v.signed_at;
        expires_at = v.expires_at;
        server_key = v.server_key;
      }

  IsVerified-verified :
      IsVerified p signed_json pins out → verify_signed_relay_list p signed_json pins ≡ ok out
  unfolding verify_signed_relay_list
  IsVerified-verified v = ground (arith, check_list-passes p)

  -- A signed relay list is verified exactly when it parses as a list, its key is one of the pins (when
  -- there are any), its signature verifies over the canonical text of its fields under that key, its
  -- validity is at most seven days and its nodes resolve. It is then an object of the fields of a list
  -- and no other, of version 10, and its key is a pin in lower case; the result holds the fields of the
  -- signed list, with the key in lower case, and one relay for each node, with its node's exit, weight,
  -- activity, egress, cover domain, address families and QUIC addresses.
  pub verify_signed_relay_list-IsVerified :
      (verify_signed_relay_list p signed_json pins ≡ ok out) ↔ IsVerified p signed_json pins out
  verify_signed_relay_list-IsVerified = (answer-IsVerified, IsVerified-verified)
