-- ===== src/Extension/Values.antt =====
-- packages/extension/src/split.ts and browser-routing.ts: the values that the browser's proxy settings are
-- given, and what the extension reads of them. Texts are the codes of their characters. The text of a PAC
-- script is kept as the data that it is compiled from.
use warren_sdk_ts.Prelude.{
  ℕ, suc, ◌+◌, ◌-◌, ◌*◌, List, [], ◌∷◌, ◌++◌, map, Option, none, some, Bool, true, false, ◌&&◌,
  ◌||◌, ◌==◌, if◌then◌else◌, length, take, drop,
}
use warren_sdk_ts.Discovery.Json.{codes, is_digit}
use warren_sdk_ts.Split.{Text, equal, all, bypass, only, is_only, SplitTunnelConfig}

pub data IngressEndpoint : Type 0 where
  https : Text → ℕ → IngressEndpoint
  masque : Text → ℕ → Text → IngressEndpoint

abbrev pub host_of : IngressEndpoint → Text
host_of (https host port) = host
host_of (masque host port template) = host

abbrev pub port_of : IngressEndpoint → ℕ
port_of (https host port) = port
port_of (masque host port template) = port

-- The proxy that a PAC script names: `HTTPS host:port` or `PROXY address`
pub data PacProxy : Type 0 where
  https_proxy : Text → ℕ → PacProxy
  http_proxy : Text → PacProxy

-- What a PAC script is compiled from: rules in lower case, whether a match follows the tunnel, a proxy
pub record PacScript : Type 0 where
  pub rules : List Text
  pub only_mode : Bool
  pub proxy : PacProxy

-- What `proxy.settings` holds. `other` is a value of another form, set by the browser or by another
-- extension. A port that is not a number is `none`.
pub data ProxyValue : Type 0 where
  fixed_servers : Text → Text → Option ℕ → List Text → ProxyValue
  pac_script : PacScript → ProxyValue
  manual : Text → Text → ProxyValue
  other : ProxyValue

abbrev pub loopback_bypass : List Text
loopback_bypass = codes "localhost" ∷ codes "127.0.0.1" ∷ []

-- `lastIndexOf(':')`, and the texts before and behind it. With no colon, `slice(0, -1)` and `slice(0)`.
unfoldable pub last_colon : Text → Option ℕ
last_colon [] = none
last_colon (c ∷ cs) = elim (last_colon cs) [
  | some i ↦ some (suc i)
  | none ↦ if c == 58 then some 0 else none
]

-- `Number` of a port written in decimal; anything else is not a number here.
abbrev all_digits : Text → Bool
all_digits [] = true
all_digits (c ∷ cs) = is_digit c && all_digits cs

abbrev value : ℕ → Text → ℕ
value acc [] = acc
value acc (c ∷ cs) = value (10 * acc + (c - 48)) cs

unfoldable pub number_of : Text → Option ℕ
number_of t = if all_digits t then some (value 0 t) else none

-- `parseAddress`
unfoldable pub parse_address : Text → Text × Option ℕ
unfolding last_colon number_of
parse_address t = elim (last_colon t) [
  | some i ↦ (take i t, number_of (drop (suc i) t))
  | none ↦ (take (length t - 1) t, number_of t)
]

unfoldable pub bypass_list : SplitTunnelConfig → List Text
bypass_list config = elim config.mode [
  | bypass ↦ loopback_bypass ++ config.rules
  | all ↦ loopback_bypass
  | only ↦ loopback_bypass
]

-- `LOCKDOWN_PROXY`: a proxy on loopback port 1, where nothing listens
abbrev pub lockdown_host : Text
lockdown_host = codes "127.0.0.1"

unfoldable pub build_chromium_lockdown_value : List Text → ProxyValue
build_chromium_lockdown_value exempt =
    fixed_servers (codes "https") lockdown_host (some 1) (loopback_bypass ++ exempt)

-- `join(', ')`
unfoldable pub join : List Text → Text
join [] = []
join (t ∷ []) = t
join (t ∷ u ∷ ts) = t ++ codes ", " ++ join (u ∷ ts)

unfoldable pub build_firefox_proxy_value : Text → SplitTunnelConfig → ProxyValue
unfolding bypass_list join
build_firefox_proxy_value socks5 config = manual socks5 (join (bypass_list config))

module _ (lower : Text → Text) where
  -- `buildPacScript` and `buildIngressPac`, which are called in `only` mode
  abbrev pub build_pac : PacProxy → SplitTunnelConfig → ProxyValue
  build_pac proxy config =
      pac_script
        (record { rules = map lower config.rules; only_mode = is_only config.mode; proxy = proxy })

  unfoldable pub build_chromium_proxy_value : Text → SplitTunnelConfig → ProxyValue
  unfolding parse_address bypass_list
  build_chromium_proxy_value http config =
      if is_only config.mode
      then build_pac (http_proxy http) config
      else fixed_servers (codes "http") (parse_address http).0 (parse_address http).1
          (bypass_list config)

  unfoldable pub build_chromium_ingress_value : IngressEndpoint → SplitTunnelConfig → ProxyValue
  unfolding bypass_list
  build_chromium_ingress_value endpoint config =
      if is_only config.mode
      then build_pac (https_proxy (host_of endpoint) (port_of endpoint)) config
      else fixed_servers (codes "https") (host_of endpoint) (some (port_of endpoint))
          (bypass_list config)

abbrev pub is_port : ℕ → Option ℕ → Bool
is_port n none = false
is_port n (some m) = m == n

unfoldable pub is_lockdown_value : ProxyValue → Bool
unfolding equal
is_lockdown_value (fixed_servers scheme host port bypassed) =
    equal scheme (codes "https") && (equal host lockdown_host && is_port 1 port)
is_lockdown_value _ = false

abbrev pub is_quote : ℕ → Bool
is_quote c = c == 34 || c == 39

abbrev starts_with_digit : Text → Bool
starts_with_digit [] = false
starts_with_digit (c ∷ cs) = is_digit c

abbrev some_seen : Text → Option Text
some_seen [] = none
some_seen (c ∷ cs) = some (c ∷ cs)

-- The group of the match `HTTPS ([^:'"]+):\d+`, where the text behind `HTTPS ` is `host:port`: what stands
-- before the first colon, if it is not empty, has no quote in it, and a digit follows. A port starts with
-- a digit. Nothing else in the script reads `HTTPS `, since its rules are in lower case.
unfoldable pub host_group : Text → Text → Option Text
host_group seen [] = some_seen seen
host_group seen (c ∷ cs) =
    let rest = host_group (seen ++ c ∷ []) cs in
    if c == 58
    then (if starts_with_digit cs then some_seen seen else none)
    else if is_quote c
    then none
    else rest

abbrev pub pac_host : PacProxy → Option Text
pac_host (https_proxy host port) = host_group [] host
pac_host (http_proxy address) = none

unfoldable pub ingress_host_from_value : ProxyValue → Option Text
ingress_host_from_value (fixed_servers scheme host port bypassed) = some host
ingress_host_from_value (pac_script pac) = pac_host pac.proxy
ingress_host_from_value (manual socks passthrough) = none
ingress_host_from_value other = none
