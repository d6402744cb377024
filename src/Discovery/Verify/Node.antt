-- ===== src/Discovery/Verify/Node.antt =====
-- The nodes of a signed relay list: their validation, and their place in the signed text.
use Prim.Native.String.{String}
use warren_sdk_ts.Prelude.{ℕ, List, [], ◌∷◌, ◌++◌, map, Option, none, some, Bool}
use warren_sdk_ts.Discovery.Json.{
  Json, number, string, bool, array_of, object_of, property, as_object, as_array, as_string, as_u64,
  as_bool, optional_field, each, ◌>>=◌,
}

pub record Location : Type 0 where
  pub country : String
  pub city : String

pub record Egress : Type 0 where
  pub ipv4 : Bool
  pub ipv6 : Bool

pub record Listener : Type 0 where
  pub port : ℕ
  pub transport : String
  pub alpn : String

pub record Endpoint : Type 0 where
  pub addr : String
  pub family : String
  pub listeners : List Listener

pub record CanonicalNode : Type 0 where
  pub id : String
  pub exit_id : String
  pub location : Location
  pub weight : ℕ
  pub active : Bool
  pub egress : Egress
  pub endpoints : List Endpoint
  pub cover_domain : Option String
  pub port_forward : Option Bool
  pub tcp_fallback : Option Bool

unfoldable pub validate_listener : Option Json → Option Listener
unfolding as_object property as_u64
validate_listener raw = do
  listener ← as_object ("port" ∷ "transport" ∷ "alpn" ∷ []) [] raw
  port ← as_u64 (property "port" listener)
  transport ← as_string (property "transport" listener)
  alpn ← as_string (property "alpn" listener)
  some (record { port = port; transport = transport; alpn = alpn })

unfoldable pub validate_endpoint : Option Json → Option Endpoint
unfolding as_object property validate_listener
validate_endpoint raw = do
  endpoint ← as_object ("addr" ∷ "family" ∷ "listeners" ∷ []) [] raw
  raw_listeners ← as_array (property "listeners" endpoint)
  listeners ← each validate_listener raw_listeners
  addr ← as_string (property "addr" endpoint)
  family ← as_string (property "family" endpoint)
  some (record { addr = addr; family = family; listeners = listeners })

unfoldable pub validate_node : Option Json → Option CanonicalNode
unfolding as_object property as_u64 validate_endpoint
validate_node raw = do
  node ←
      as_object ("id" ∷ "exit_id" ∷ "location" ∷ "weight" ∷ "active" ∷ "egress" ∷ "endpoints" ∷ [])
        ("cover_domain" ∷ "port_forward" ∷ "tcp_fallback" ∷ []) raw
  location ← as_object ("country" ∷ "city" ∷ []) [] (property "location" node)
  egress ← as_object ("ipv4" ∷ "ipv6" ∷ []) [] (property "egress" node)
  raw_endpoints ← as_array (property "endpoints" node)
  endpoints ← each validate_endpoint raw_endpoints
  id ← as_string (property "id" node)
  exit_id ← as_string (property "exit_id" node)
  country ← as_string (property "country" location)
  city ← as_string (property "city" location)
  weight ← as_u64 (property "weight" node)
  active ← as_bool (property "active" node)
  ipv4 ← as_bool (property "ipv4" egress)
  ipv6 ← as_bool (property "ipv6" egress)
  cover_domain ← optional_field as_string (property "cover_domain" node)
  port_forward ← optional_field as_bool (property "port_forward" node)
  tcp_fallback ← optional_field as_bool (property "tcp_fallback" node)
  some (record {
    id = id;
    exit_id = exit_id;
    location = record { country = country; city = city };
    weight = weight;
    active = active;
    egress = record { ipv4 = ipv4; ipv6 = ipv6 };
    endpoints = endpoints;
    cover_domain = cover_domain;
    port_forward = port_forward;
    tcp_fallback = tcp_fallback;
  })

abbrev pub listener_json : Listener → Json
listener_json l =
    object_of
      (("port", number l.port) ∷ ("transport", string l.transport) ∷ ("alpn", string l.alpn) ∷ [])

abbrev pub endpoint_json : Endpoint → Json
endpoint_json e = object_of (
    ("addr", string e.addr)
    ∷ ("family", string e.family)
    ∷ ("listeners", array_of (map listener_json e.listeners))
    ∷ [])

abbrev pub present : {A : Type 0} → String → (A → Json) → Option A → List (String × Json)
present key f none = []
present key f (some a) = (key, f a) ∷ []

-- The object literal of `validateNode`, in its order of fields, as `JSON.stringify` sees it
abbrev pub node_json : CanonicalNode → Json
node_json n = object_of (
    (("id", string n.id)
      ∷ ("exit_id", string n.exit_id)
      ∷ (
        "location",
        object_of (("country", string n.location.country) ∷ ("city", string n.location.city) ∷ []),
      )
      ∷ ("weight", number n.weight)
      ∷ ("active", bool n.active)
      ∷ ("egress", object_of (("ipv4", bool n.egress.ipv4) ∷ ("ipv6", bool n.egress.ipv6) ∷ []))
      ∷ ("endpoints", array_of (map endpoint_json n.endpoints))
      ∷ [])
    ++ present "cover_domain" string n.cover_domain
    ++ present "port_forward" bool n.port_forward
    ++ present "tcp_fallback" bool n.tcp_fallback)
