-- ===== src/Extension/Examples.antt =====
-- The theorems on the browser's routing at concrete inputs.
use warren_sdk_ts.Prelude.{ℕ, ◌≡◌, ◌↔◌, inl, refl, arith, [], ◌∷◌, none, some, true, false}
use Prim.Native.String.{String}
use warren_sdk_ts.Discovery.Json.{Json, number, string, array_of, object_of, property, codes}
use warren_sdk_ts.Split.{Text, all, SplitTunnelConfig, equal, ends_with}
use warren_sdk_ts.Extension.Values.{ProxyValue, https, other, build_chromium_ingress_value}
use warren_sdk_ts.Extension.Routing.{
  RoutingState, ingress, lockdown, ProxyAuth, resolved, direct, FirefoxSources, AuthChallenge,
  ProxyAuthSources, cancelled, credentials, remember, is_loopback_host, is_ingress, ingress_auth,
  credential_for, on_request, on_auth_required,
}
use warren_sdk_ts.Extension.Routing.Stored.{
  field, is_split, as_multihop_state, as_routing_record, load,
}
use warren_sdk_ts.Extension.Routing.Direct.{MayGoDirect, on_request-MayGoDirect}
use warren_sdk_ts.Extension.Routing.Auth.{IsAnswered, on_auth_required-IsAnswered}
use warren_sdk_ts.Extension.Routing.Memory.{memory_after, on_auth_required_once}
use warren_sdk_ts.Extension.Routing.Chromium.{
  ProxySettings, controlled_by_this_extension, controllable_by_this_extension, installed,
  read_chromium_routing, install_chromium_routing,
}
use warren_sdk_ts.Extension.Routing.Chromium.ReadBack.{read_as, is_distinct, install-read}

abbrev same : Text → Text
same t = t

abbrev show : ℕ → Text
show n = codes "443"

abbrev sources : FirefoxSources
sources = record {
  hostname = some (codes "api.example");
  tab_id = none;
  stored = resolved (some (lockdown (codes "api.example" ∷ [])));
  credential = resolved none;
  for_listener = λ t. none;
}

on_request-MayGoDirect_example :
    (on_request same same sources ≡ resolved (direct ∷ [])) ↔ MayGoDirect same sources
on_request-MayGoDirect_example = on_request-MayGoDirect same same sources

abbrev everything : SplitTunnelConfig
everything = record { mode = all; rules = []; tabs = none }

abbrev state : RoutingState
state = record { endpoint = https (codes "in.example") 443; split = everything; hops = 1 }

abbrev auth_sources : ProxyAuthSources
auth_sources = record {
  ingress = some (resolved (some (ingress state)), resolved (some (codes "secret")));
  for_listener = none;
}

abbrev challenge : AuthChallenge
challenge = record {
  is_proxy = true;
  request_id = some (codes "7");
  challenger = some (record { host = codes "in.example"; port = 443 });
}

abbrev auth : ProxyAuth
auth = record { username = codes "warren"; password = codes "secret" }

answers :
    on_auth_required same show auth_sources (memory_after same show [] []) challenge
    ≡ (codes "7" ∷ [], credentials auth)
unfolding on_auth_required memory_after remember credential_for is_loopback_host ingress_auth
    is_ingress equal ends_with
answers = refl

on_auth_required-IsAnswered_example :
    IsAnswered same show auth_sources (memory_after same show [] []) challenge (codes "7" ∷ []) auth
on_auth_required-IsAnswered_example =
    on_auth_required-IsAnswered same show auth_sources (memory_after same show [] [])
      (codes "7" ∷ []) auth challenge answers

on_auth_required_once_example :
    (on_auth_required same show auth_sources
      (memory_after same show ((auth_sources, challenge) ∷ []) (codes "7" ∷ []))
      challenge).1
    ≡ cancelled
on_auth_required_once_example =
    on_auth_required_once same show [] ((auth_sources, challenge) ∷ []) auth_sources auth_sources
      challenge (codes "7" ∷ []) auth (codes "7") challenge.challenger answers refl (omega arith)

abbrev before : ProxySettings
before = record { value = other; level_of_control = controllable_by_this_extension }

-- A browser that takes every value.
abbrev takes_all : ProxySettings → ProxyValue → ProxySettings
takes_all s v = record { value = v; level_of_control = controlled_by_this_extension }

abbrev after : ProxySettings
after = record {
  value = build_chromium_ingress_value same state.endpoint state.split;
  level_of_control = controlled_by_this_extension;
}

installs : install_chromium_routing same takes_all before (inl state) ≡ (after, installed)
unfolding install_chromium_routing
installs = refl

distinct : is_distinct (inl state) ≡ true
unfolding equal
distinct = refl

install-read_example :
    read_chromium_routing after (codes "in.example") ≡ read_as (inl state) (codes "in.example")
install-read_example =
    install-read same takes_all before after (inl state) (codes "in.example") (λ s v h. refl)
      distinct refl installs

-- A stored ingress routing whose split has a mode and no rules
abbrev without_rules : Json
without_rules = object_of (
    ("tier", string "ingress")
    ∷ (
      "endpoint",
      object_of
          (("kind", string "https") ∷ ("host", string "in.example") ∷ ("port", number 443) ∷ []),
    )
    ∷ ("split", object_of (("mode", string "bypass") ∷ []))
    ∷ ("exit", object_of (("country", string "de") ∷ ("city", string "ber") ∷ []))
    ∷ ("hops", number 1)
    ∷ [])

test_without_rules : load (some without_rules) ≡ some without_rules
unfolding load as_routing_record property
test_without_rules = refl

test_split_without_rules : is_split (field "split" without_rules) ≡ false
unfolding is_split property
test_split_without_rules = refl

abbrev local_tunnel : String → Json
local_tunnel socks5 = object_of (
    ("tier", string "multihop")
    ∷ ("socks5", string socks5)
    ∷ ("split", object_of (("mode", string "all") ∷ ("rules", array_of []) ∷ []))
    ∷ ("installedAt", number 9)
    ∷ [])

test_local_tunnel : as_routing_record (local_tunnel "127.0.0.1:1080") ≡ true
unfolding as_routing_record as_multihop_state is_split property
test_local_tunnel = refl

-- A stored record that is no record: it is read as none, and Firefox is told to go direct.
test_corrupt : load (some (local_tunnel "127.0.0.1")) ≡ none
unfolding load as_routing_record as_multihop_state is_split property
test_corrupt = refl

test_unrouted :
    on_request same same (record sources { stored = resolved none }) ≡ resolved (direct ∷ [])
unfolding on_request is_loopback_host equal ends_with
test_unrouted = refl
