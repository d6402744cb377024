-- ===== src/Split/Examples.antt =====
-- The theorems on split tunnelling at concrete inputs.
use warren_sdk_ts.Prelude.{map, ◌≡◌, refl, ◌↔◌, [], ◌∷◌, none, some, true, false}
use warren_sdk_ts.Split.{
  Text, only, SplitTunnelConfig, TunnelRequest, dot, star, is_loopback, has_tab, equal, is_only,
  should_tunnel_host, host_matches_rule, matches_lower, starts, ends_with, should_tunnel_request,
}
use warren_sdk_ts.Discovery.Json.{codes}
use warren_sdk_ts.Split.Pac.{
  ends_in, matches_suffix, matches_in_pac, find_proxy_for_url,
  find_proxy_for_url-should_tunnel_host,
}
use warren_sdk_ts.Split.Rules.{Covered, Routed, should_tunnel_request_iff}

abbrev same : Text → Text
same t = t

-- `a.b` under the rule `*.b`, from tab 4
abbrev request : TunnelRequest
request = record { host = 97 ∷ dot ∷ 98 ∷ []; tab_id = some 4 }

abbrev config : SplitTunnelConfig
config = record { mode = only; rules = (star ∷ dot ∷ 98 ∷ []) ∷ []; tabs = none }

should_tunnel_request_iff_example : (should_tunnel_request same request config ≡ true) ↔ (
    (is_loopback same request.host ≡ false)
    × Routed only (Covered same request.host config.rules) (has_tab (some 4) none))
should_tunnel_request_iff_example = should_tunnel_request_iff same request config

abbrev only_config : SplitTunnelConfig
only_config = record { mode = only; rules = codes "example.com" ∷ codes "*.b" ∷ []; tabs = none }

find_proxy_for_url-should_tunnel_host_example :
    find_proxy_for_url same (map same only_config.rules) (is_only only) (codes "www.example.com")
    ≡ should_tunnel_host same (codes "www.example.com") only_config
unfolding equal
find_proxy_for_url-should_tunnel_host_example =
    find_proxy_for_url-should_tunnel_host same (codes "www.example.com") only_config refl refl refl
      (refl, (refl, tt))

-- A star before another character: the script takes `*foo` for the domain `foo`, the matcher does not.
test_star : matches_in_pac (codes "a.foo") (codes "*foo") ≡ true
unfolding matches_in_pac matches_suffix ends_in equal
test_star = refl

test_star_matcher : host_matches_rule same (codes "a.foo") (codes "*foo") ≡ false
unfolding host_matches_rule matches_lower equal starts ends_with
test_star_matcher = refl
