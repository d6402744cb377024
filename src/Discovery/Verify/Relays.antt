-- ===== src/Discovery/Verify/Relays.antt =====
-- What a resolved relay holds of its node.
use Prim.Native.String.{String}
use text.Mathlib.Text.{◌==◌ as str_eq}
use text.Mathlib.TextEquality.{eq_iff}
use warren_sdk_ts.Prelude.{
  ◌≡◌, sym, ap, ◌∙◌, ◌⊎◌, refl, List, [], ◌∷◌, ◌++◌, Bool, true, false, ◌||◌, arith, All,
  append_assoc, append-nil,
}
use warren_sdk_ts.Discovery.Json.{is_hex_of}
use warren_sdk_ts.Discovery.Platform.{Platform, Checked, ok, fail, ◌>>=◌, ◌>>◌, require}
use warren_sdk_ts.Discovery.Relay.{Relay}
use warren_sdk_ts.Discovery.Verify.Node.{Endpoint, CanonicalNode}
use warren_sdk_ts.Discovery.Verify.{
  WarrenDiscoveryErrorCode, invalid_node_id, no_addresses, endpoint_id, relay_of, is_ipv4, is_ipv6,
  dialable, Addresses, ipv4_endpoint, ipv6_endpoint, by_family, add_endpoint, addresses,
  resolve_relay,
}

-- The address of an endpoint is of the family that it declares.
abbrev pub HasFamily : Platform → Endpoint → Type 0
HasFamily p e =
    ((e.family ≡ "ipv4") × (is_ipv4 e.addr ≡ true))
    ⊎ ((e.family ≡ "ipv6") × (is_ipv6 p e.addr ≡ true))

abbrev pub some_family : String → List Endpoint → Bool
some_family family [] = false
some_family family (e ∷ es) = str_eq e.family family || some_family family es

abbrev pub dialable_addrs : List Endpoint → List String
dialable_addrs [] = []
dialable_addrs (e ∷ es) = dialable (str_eq e.family "ipv6") e.addr e.listeners ++ dialable_addrs es

-- What a step of the loop adds.
record Adds (p : Platform) (found : Addresses) (e : Endpoint) (next : Addresses) : Type 0 where
  family : HasFamily p e
  ipv4 : next.has_ipv4 ≡ (found.has_ipv4 || str_eq e.family "ipv4")
  ipv6 : next.has_ipv6 ≡ (found.has_ipv6 || str_eq e.family "ipv6")
  addrs : next.addrs ≡ found.addrs ++ dialable (str_eq e.family "ipv6") e.addr e.listeners

ipv4_not_ipv6 : (s : String) → str_eq s "ipv4" ≡ true → str_eq s "ipv6" ≡ false
ipv4_not_ipv6 s h = rw ((eq_iff s "ipv4").0 h) refl

add_endpoint-Adds :
    (p : Platform) (found : Addresses) (e : Endpoint) (next : Addresses)
    → add_endpoint p found e ≡ ok next
    → Adds p found e next
unfolding add_endpoint by_family ipv4_endpoint ipv6_endpoint
add_endpoint-Adds p found e next h =
    ground (arith, eq_iff e.family "ipv4", eq_iff e.family "ipv6", ipv4_not_ipv6 e.family)

-- What the whole loop adds.
record Gathers (p : Platform) (found : Addresses) (es : List Endpoint) (last : Addresses)
    : Type 0 where
  families : All (HasFamily p) es
  ipv4 : last.has_ipv4 ≡ (found.has_ipv4 || some_family "ipv4" es)
  ipv6 : last.has_ipv6 ≡ (found.has_ipv6 || some_family "ipv6" es)
  addrs : last.addrs ≡ found.addrs ++ dialable_addrs es

or_false : (b : Bool) → (b || false) ≡ b
or_false true = refl
or_false false = refl

or_assoc : (a b c : Bool) → ((a || b) || c) ≡ (a || (b || c))
or_assoc true b c = refl
or_assoc false b c = refl

addresses-Gathers :
    (p : Platform) (es : List Endpoint) (found last : Addresses)
    → addresses p found es ≡ ok last
    → Gathers p found es last
unfolding addresses
addresses-Gathers p [] found last h =
    let same : found ≡ last = cc in
    record {
      families = tt;
      ipv4 = rw (sym same) (sym (or_false found.has_ipv4));
      ipv6 = rw (sym same) (sym (or_false found.has_ipv6));
      addrs = rw (sym same) (sym (append-nil found.addrs));
    }
addresses-Gathers p (e ∷ es) found last h =
    go (add_endpoint p found e) refl h (λ next. addresses-Gathers p es next last)
  where
    go :
        (c : Checked WarrenDiscoveryErrorCode Addresses)
        → add_endpoint p found e ≡ c
        → (c >>= λ next. addresses p next es) ≡ ok last
        → ((next : Addresses) → addresses p next es ≡ ok last → Gathers p next es last)
        → Gathers p found (e ∷ es) last
    go (fail x) step rest ih = absurd cc
    go (ok next) step rest ih =
        let a = add_endpoint-Adds p found e next step in
        let g = ih next rest in
        record {
          families = (a.family, g.families);
          ipv4 =
              g.ipv4
              ∙ ap (λ b. b || some_family "ipv4" es) a.ipv4
              ∙ or_assoc found.has_ipv4 (str_eq e.family "ipv4") (some_family "ipv4" es);
          ipv6 =
              g.ipv6
              ∙ ap (λ b. b || some_family "ipv6" es) a.ipv6
              ∙ or_assoc found.has_ipv6 (str_eq e.family "ipv6") (some_family "ipv6" es);
          addrs =
              g.addrs
              ∙ ap (λ l. l ++ dialable_addrs es) a.addrs
              ∙ append_assoc found.addrs _ (dialable_addrs es);
        }

-- What a relay says of its node.
pub record Resolves (p : Platform) (node : CanonicalNode) (relay : Relay) : Type 0 where
  pub exit_hex : is_hex_of 32 node.exit_id ≡ true
  pub exit_id : relay.exit_id_hex ≡ p.lower node.exit_id
  pub families : All (HasFamily p) node.endpoints
  pub ipv4 : relay.has_ipv4 ≡ some_family "ipv4" node.endpoints
  pub ipv6 : relay.has_ipv6 ≡ some_family "ipv6" node.endpoints
  pub addrs : relay.addrs ≡ dialable_addrs node.endpoints
  pub weight : relay.weight ≡ node.weight
  pub active : relay.active ≡ node.active
  pub ipv6_egress : relay.ipv6_egress ≡ node.egress.ipv6
  pub cover_domain : relay.cover_domain ≡ node.cover_domain

-- The parts that a resolved relay is made of.
record Parts (p : Platform) (node : CanonicalNode) (relay : Relay) : Type 0 where
  id : String
  found : Addresses
  gathered : addresses p no_addresses node.endpoints ≡ ok found
  exit_hex : is_hex_of 32 node.exit_id ≡ true
  made : relay ≡ relay_of p node id found

resolve_relay-Parts :
    (p : Platform) (node : CanonicalNode) (relay : Relay)
    → resolve_relay p node ≡ ok relay
    → Parts p node relay
unfolding resolve_relay
resolve_relay-Parts p node relay h =
    go (endpoint_id p node.id) (is_hex_of 32 node.exit_id) (addresses p no_addresses node.endpoints)
      refl refl h
  where
    go :
        (c : Checked WarrenDiscoveryErrorCode String) (b : Bool)
        (a : Checked WarrenDiscoveryErrorCode Addresses)
        → is_hex_of 32 node.exit_id ≡ b
        → addresses p no_addresses node.endpoints ≡ a
        → (c >>= λ id. require b invalid_node_id >> (a >>= λ found. ok (relay_of p node id found)))
          ≡ ok relay
        → Parts p node relay
    go (fail x) b a hex gathered e = absurd cc
    go (ok id) false a hex gathered e = absurd cc
    go (ok id) true (fail x) hex gathered e = absurd cc
    go (ok id) true (ok found) hex gathered e = record {
      id = id;
      found = found;
      gathered = gathered;
      exit_hex = hex;
      made = cc;
    }

-- A node that resolves has an exit id of 32 hex digits, and each of its endpoints has an address of the
-- family that it declares; the relay is IPv4 or IPv6 exactly where some endpoint is of that family,
-- its addresses are those of the QUIC listeners in their order, and its weight, activity, egress and
-- cover domain are the node's.
pub resolve_relay-Resolves :
    (p : Platform) (node : CanonicalNode) (relay : Relay)
    → resolve_relay p node ≡ ok relay
    → Resolves p node relay
resolve_relay-Resolves p node relay h =
    let q = resolve_relay-Parts p node relay h in
    let g = addresses-Gathers p node.endpoints no_addresses q.found q.gathered in
    record {
      exit_hex = q.exit_hex;
      exit_id = rw q.made refl;
      families = g.families;
      ipv4 = rw q.made g.ipv4;
      ipv6 = rw q.made g.ipv6;
      addrs = rw q.made g.addrs;
      weight = rw q.made refl;
      active = rw q.made refl;
      ipv6_egress = rw q.made refl;
      cover_domain = rw q.made refl;
    }
