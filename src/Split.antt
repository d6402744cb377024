-- ===== src/Split.antt =====
-- packages/extension/src/split.ts: which hosts follow the tunnel and which go direct. A host and a rule
-- are the codes of their characters, and `toLowerCase` is a parameter.
pub mod Rules
pub mod Pac
mod Examples
use warren_sdk_ts.Prelude.{
  ℕ, ◌+◌, ◌-◌, List, [], ◌∷◌, ◌++◌, Option, none, some, Bool, true, false, not, ◌&&◌, ◌||◌, ◌==◌,
  leb, if◌then◌else◌, length, drop,
}

abbrev pub Text : Type 0
Text = List ℕ

pub data SplitTunnelMode : Type 0 where
  all : SplitTunnelMode
  bypass : SplitTunnelMode
  only : SplitTunnelMode

pub record SplitTunnelConfig : Type 0 where
  pub mode : SplitTunnelMode
  pub rules : List Text
  pub tabs : Option (List ℕ)

pub record TunnelRequest : Type 0 where
  pub host : Text
  pub tab_id : Option ℕ

-- The codes of `.` and of `*`
abbrev pub dot : ℕ
dot = 46

abbrev pub star : ℕ
star = 42

unfoldable pub equal : Text → Text → Bool
equal [] [] = true
equal [] (d ∷ t) = false
equal (c ∷ s) [] = false
equal (c ∷ s) (d ∷ t) = let rest = equal s t in if c == d then rest else false

-- `s.startsWith(t)`
unfoldable pub starts : Text → Text → Bool
starts s [] = true
starts [] (d ∷ t) = false
starts (c ∷ s) (d ∷ t) = let rest = starts s t in if c == d then rest else false

-- `s.endsWith(t)`
unfoldable pub ends_with : Text → Text → Bool
ends_with s t = leb (length t) (length s) && equal (drop (length s - length t) s) t

abbrev localhost : Text
localhost = 108 ∷ 111 ∷ 99 ∷ 97 ∷ 108 ∷ 104 ∷ 111 ∷ 115 ∷ 116 ∷ []

-- `127.0.0.1` and `[::1]`
abbrev loopback_ipv4 : Text
loopback_ipv4 = 49 ∷ 50 ∷ 55 ∷ 46 ∷ 48 ∷ 46 ∷ 48 ∷ 46 ∷ 49 ∷ []

abbrev loopback_ipv6 : Text
loopback_ipv6 = 91 ∷ 58 ∷ 58 ∷ 49 ∷ 93 ∷ []

unfoldable pub is_loopback_name : Text → Bool
is_loopback_name h =
    equal h localhost
    || (ends_with h (dot ∷ localhost) || (equal h loopback_ipv4 || equal h loopback_ipv6))

-- `hostMatchesRule` of a host and a rule in lower case: `*`, `*.suffix`, `.suffix` or a domain
unfoldable pub matches_lower : Text → Text → Bool
matches_lower h r =
    if equal r (star ∷ [])
    then true
    else if starts r (star ∷ dot ∷ [])
    then ends_with h (drop 1 r)
    else if starts r (dot ∷ [])
    then ends_with h r
    else equal h r || ends_with h (dot ∷ r)

abbrev pub by_mode : SplitTunnelMode → Bool → Bool
by_mode all matched = true
by_mode bypass matched = not matched
by_mode only matched = matched

abbrev pub has_tab : Option ℕ → Option (List ℕ) → Bool
has_tab none tabs = false
has_tab (some tab) none = false
has_tab (some tab) (some []) = false
has_tab (some tab) (some (t ∷ tabs)) = t == tab || has_tab (some tab) (some tabs)

abbrev pub is_only : SplitTunnelMode → Bool
is_only all = false
is_only bypass = false
is_only only = true

module _ (lower : Text → Text) where
  unfoldable pub host_matches_rule : Text → Text → Bool
  host_matches_rule host rule = matches_lower (lower host) (lower rule)

  unfoldable pub is_loopback : Text → Bool
  is_loopback host = is_loopback_name (lower host)

  unfoldable pub some_rule : Text → List Text → Bool
  some_rule host [] = false
  some_rule host (rule ∷ rules) = host_matches_rule host rule || some_rule host rules

  unfoldable pub should_tunnel_host : Text → SplitTunnelConfig → Bool
  should_tunnel_host host config =
      if is_loopback host then false else by_mode config.mode (some_rule host config.rules)

  unfoldable pub should_tunnel_request : TunnelRequest → SplitTunnelConfig → Bool
  should_tunnel_request request config =
      if is_loopback request.host
      then false
      else if is_only config.mode && has_tab request.tab_id config.tabs
      then true
      else should_tunnel_host request.host config
