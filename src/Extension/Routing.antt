-- ===== src/Extension/Routing.antt =====
-- packages/extension/src/browser-routing.ts: the record of a routing and what the browser's listeners
-- answer from it. Parameters: `toLowerCase`, `new URL(…).hostname` (`none` where it throws) and `btoa`.
pub mod Direct
pub mod Auth
pub mod Memory
pub mod Chromium
pub mod Stored
use Prim.Native.String.{String}
use warren_sdk_ts.Prelude.{
  ℕ, ◌+◌, ◌-◌, List, [], ◌∷◌, ◌++◌, Option, none, some, Bool, true, false, not, ◌&&◌, ◌||◌, ◌==◌,
  ltb, if◌then◌else◌, length, take, drop,
}
use warren_sdk_ts.Discovery.Json.{codes}
use warren_sdk_ts.Split.{
  Text, equal, ends_with, SplitTunnelConfig, TunnelRequest, should_tunnel_request,
}
use warren_sdk_ts.Extension.Values.{IngressEndpoint, https, masque, host_of, port_of, parse_address}

pub record RoutingState : Type 0 where
  pub endpoint : IngressEndpoint
  pub split : SplitTunnelConfig
  pub hops : ℕ

pub record MultihopRoutingState : Type 0 where
  pub socks5 : Text
  pub split : SplitTunnelConfig

-- The exempt hosts of a lockdown. What the records hold for display alone is left out.
pub data RoutingRecord : Type 0 where
  ingress : RoutingState → RoutingRecord
  lockdown : List Text → RoutingRecord
  multihop : MultihopRoutingState → RoutingRecord

pub record ProxyAuth : Type 0 where
  pub username : Text
  pub password : Text

-- A promise: its value, or a rejection.
pub data Promised {ℓ} (A : Type ℓ) : Type ℓ where
  resolved : A → Promised A
  rejected : Promised A

pub data FirefoxProxyInfo : Type 0 where
  direct : FirefoxProxyInfo
  https_proxy : Text → ℕ → Option Text → FirefoxProxyInfo
  masque_proxy : Text → ℕ → Text → Option Text → FirefoxProxyInfo
  socks_proxy : Text → Option ℕ → ProxyAuth → FirefoxProxyInfo

abbrev pub fail_closed_proxy : List FirefoxProxyInfo
fail_closed_proxy = https_proxy (codes "127.0.0.1") 1 none ∷ []

abbrev pub credential_username : Text
credential_username = codes "warren"

abbrev pub some_equal : (Text → Text) → List Text → Text → Bool
some_equal lower [] host = false
some_equal lower (h ∷ hs) host = equal (lower h) host || some_equal lower hs host

module _ (lower : Text → Text) where
  unfoldable pub is_loopback_host : Text → Bool
  unfolding equal ends_with
  is_loopback_host hostname =
      equal (lower hostname) (codes "localhost")
      || (ends_with (lower hostname) (codes ".localhost")
          || (equal (lower hostname) (codes "127.0.0.1")
              || (equal (lower hostname) (codes "::1") || equal (lower hostname) (codes "[::1]"))))

  -- Whether a lockdown lets a host through
  unfoldable pub is_exempt : List Text → Text → Bool
  unfolding equal
  is_exempt exempt host = some_equal lower exempt host

module _ (btoa : Text → Text) where
  abbrev pub basic_auth : Text → Text
  basic_auth credential = codes "Basic " ++ btoa (credential_username ++ codes ":" ++ credential)

  abbrev pub auth_header : Option Text → Option Text
  auth_header none = none
  auth_header (some credential) = some (basic_auth credential)

  abbrev pub with_credential : Text → Option Text → Text
  with_credential template none = template
  with_credential template (some credential) = template ++ codes "?credential=" ++ credential

  unfoldable pub firefox_proxy_info_for : IngressEndpoint → Option Text → List FirefoxProxyInfo
  firefox_proxy_info_for (https host port) credential =
      https_proxy host port (auth_header credential) ∷ []
  firefox_proxy_info_for (masque host port template) credential =
      masque_proxy host port (with_credential template credential) (auth_header credential)
      ∷ https_proxy host port (auth_header credential)
      ∷ []

-- What the environment answers to one request of the Firefox listener: the URL's host, the stored
-- record, the credential of this hour, and the native host's credentials for a listener.
pub record FirefoxSources : Type 0 where
  pub hostname : Option Text
  pub tab_id : Option ℕ
  pub stored : Promised (Option RoutingRecord)
  pub credential : Promised (Option Text)
  pub for_listener : Text → Option ProxyAuth

abbrev pub socks_proxy_info : Text → ProxyAuth → FirefoxProxyInfo
socks_proxy_info socks5 auth = socks_proxy (parse_address socks5).0 (parse_address socks5).1 auth

module _ (lower : Text → Text) (btoa : Text → Text) where
  abbrev pub is_loopback_url : Option Text → Bool
  is_loopback_url none = false
  is_loopback_url (some host) = is_loopback_host lower host

  abbrev pub answer_multihop : Text → Option ProxyAuth → List FirefoxProxyInfo
  answer_multihop socks5 none = fail_closed_proxy
  answer_multihop socks5 (some auth) = socks_proxy_info socks5 auth ∷ []

  abbrev pub answer_ingress :
      IngressEndpoint → Promised (Option Text) → Promised (List FirefoxProxyInfo)
  answer_ingress endpoint rejected = rejected
  answer_ingress endpoint (resolved credential) =
      resolved (firefox_proxy_info_for btoa endpoint credential)

  -- The answer from a record, for a host in lower case
  unfoldable pub answer_record :
      FirefoxSources → Text → RoutingRecord → Promised (List FirefoxProxyInfo)
  unfolding is_exempt should_tunnel_request parse_address firefox_proxy_info_for
  answer_record sources host (lockdown exempt) =
      resolved (if is_exempt lower exempt host then direct ∷ [] else fail_closed_proxy)
  answer_record sources host (multihop state) =
      if should_tunnel_request lower (record { host = host; tab_id = sources.tab_id }) state.split
      then resolved (answer_multihop state.socks5 (sources.for_listener state.socks5))
      else resolved (direct ∷ [])
  answer_record sources host (ingress state) =
      if should_tunnel_request lower (record { host = host; tab_id = sources.tab_id }) state.split
      then answer_ingress state.endpoint sources.credential
      else resolved (direct ∷ [])

  abbrev pub answer_url :
      FirefoxSources → Option Text → RoutingRecord → Promised (List FirefoxProxyInfo)
  answer_url sources none state = resolved fail_closed_proxy
  answer_url sources (some host) state = answer_record sources (lower host) state

  abbrev pub answer_stored :
      FirefoxSources
      → Option Text
      → Promised (Option RoutingRecord)
      → Promised (List FirefoxProxyInfo)
  answer_stored sources name rejected = resolved fail_closed_proxy
  answer_stored sources name (resolved none) = resolved (direct ∷ [])
  answer_stored sources name (resolved (some state)) = answer_url sources name state

  -- The listener of `attachFirefoxRouting`; a single answer is a list of one.
  unfoldable pub on_request : FirefoxSources → Promised (List FirefoxProxyInfo)
  unfolding is_loopback_host answer_record
  on_request sources =
      if is_loopback_url sources.hostname
      then resolved (direct ∷ [])
      else answer_stored sources sources.hostname sources.stored

pub record Challenger : Type 0 where
  pub host : Text
  pub port : ℕ

pub record AuthChallenge : Type 0 where
  pub is_proxy : Bool
  pub request_id : Option Text
  pub challenger : Option Challenger

-- The sources of `attachChromiumProxyAuth`: an absent `ingress` or `local` is `none`.
pub record ProxyAuthSources : Type 0 where
  pub ingress : Option (Promised (Option RoutingRecord) × Promised (Option Text))
  pub for_listener : Option (Text → Option ProxyAuth)

pub data AuthResponse : Type 0 where
  ignored : AuthResponse
  cancelled : AuthResponse
  credentials : ProxyAuth → AuthResponse

abbrev pub answered_memory : ℕ
answered_memory = 512

abbrev pub holds : Text → List Text → Bool
holds t [] = false
holds t (u ∷ us) = equal u t || holds t us

-- `add`, and the eviction of the oldest: a `Set` keeps the order of insertion.
unfoldable pub remember : Text → List Text → List Text
remember t answered =
    if ltb answered_memory (length (answered ++ t ∷ []))
    then drop 1 (answered ++ t ∷ [])
    else answered ++ t ∷ []

module _ (lower : Text → Text) (show : ℕ → Text) where
  -- `${host}:${port}`
  abbrev pub address_of : Challenger → Text
  address_of c = c.host ++ codes ":" ++ show c.port

  abbrev pub local_auth : Option (Text → Option ProxyAuth) → Text → Option ProxyAuth
  local_auth none listener = none
  local_auth (some f) listener = f listener

  abbrev pub ingress_password : Promised (Option Text) → Promised (Option ProxyAuth)
  ingress_password rejected = rejected
  ingress_password (resolved none) = resolved none
  ingress_password (resolved (some credential)) =
      resolved (some (record { username = credential_username; password = credential }))

  unfoldable pub is_ingress : RoutingState → Challenger → Bool
  unfolding equal
  is_ingress state c =
      equal (lower (host_of state.endpoint)) (lower c.host) && (port_of state.endpoint == c.port)

  unfoldable pub ingress_auth :
      Challenger
      → Option (Promised (Option RoutingRecord) × Promised (Option Text))
      → Promised (Option ProxyAuth)
  unfolding is_ingress
  ingress_auth c none = resolved none
  ingress_auth c (some (rejected, credential)) = rejected
  ingress_auth c (some (resolved none, credential)) = resolved none
  ingress_auth c (some (resolved (some (ingress state)), credential)) =
      if is_ingress state c then ingress_password credential else resolved none
  ingress_auth c (some (resolved (some (lockdown exempt)), credential)) = resolved none
  ingress_auth c (some (resolved (some (multihop state)), credential)) = resolved none

  unfoldable pub credential_for : ProxyAuthSources → Challenger → Promised (Option ProxyAuth)
  unfolding is_loopback_host ingress_auth
  credential_for sources c =
      if is_loopback_host lower c.host
      then resolved (local_auth sources.for_listener (address_of c))
      else ingress_auth c sources.ingress

  abbrev pub respond : List Text → Text → Promised (Option ProxyAuth) → List Text × AuthResponse
  respond answered id rejected = (answered, cancelled)
  respond answered id (resolved none) = (answered, cancelled)
  respond answered id (resolved (some auth)) = (remember id answered, credentials auth)

  abbrev pub answer :
      ProxyAuthSources → List Text → Option Text → Option Challenger → List Text × AuthResponse
  answer sources answered id none = (answered, cancelled)
  answer sources answered none (some c) = (answered, cancelled)
  answer sources answered (some id) (some c) =
      if holds id answered
      then (answered, cancelled)
      else respond answered id (credential_for sources c)

  -- The listener of `attachChromiumProxyAuth`, on the ids that it has answered, oldest first. Challenges
  -- are answered one at a time.
  unfoldable pub on_auth_required :
      ProxyAuthSources → List Text → AuthChallenge → List Text × AuthResponse
  unfolding remember credential_for equal
  on_auth_required sources answered details =
      if details.is_proxy
      then answer sources answered details.request_id details.challenger
      else (answered, ignored)
