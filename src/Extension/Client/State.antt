-- ===== src/Extension/Client/State.antt =====
-- packages/extension/src/client.ts: the state of the client and of the browser, and its short operations.
use warren_sdk_ts.Prelude.{
  ℕ, suc, ◌-◌, List, [], ◌∷◌, Option, none, some, Bool, true, false, not, ◌&&◌, ◌||◌, ◌==◌,
  if◌then◌else◌,
}
use warren_sdk_ts.Split.{Text, equal, SplitTunnelConfig, TunnelRequest, should_tunnel_request}
use warren_sdk_ts.Extension.Values.{ProxyValue, build_chromium_lockdown_value}
use warren_sdk_ts.Extension.Routing.{
  ProxyAuth, FirefoxProxyInfo, direct, fail_closed_proxy, socks_proxy_info,
}
use warren_sdk_ts.Extension.Routing.Chromium.{ProxySettings}

-- `uncaught` is a rejection of the browser's, which comes with no code.
pub data WarrenExtensionErrorCode : Type 0 where
  host_unavailable protocol host already_connected : WarrenExtensionErrorCode
  not_connected proxy_uncontrollable private_browsing_required uncaught : WarrenExtensionErrorCode

pub record Endpoints : Type 0 where
  pub http : Option Text
  pub socks5 : Text

pub record TunnelExit : Type 0 where
  pub country : Text
  pub city : Text

-- A handler of `proxy.onRequest`. The browser tells handlers apart by identity: `id`.
pub record Handler : Type 0 where
  pub id : ℕ
  pub socks5 : Text
  pub split : SplitTunnelConfig

-- The browser: its proxy settings, its per-request handlers in the order of their registration, and
-- whether each of the two leak settings is this extension's: `hardened` the WebRTC one, `prefetch_off`
-- the one of the DNS prefetcher.
pub record Browser : Type 0 where
  pub settings : ProxySettings
  pub listeners : List Handler
  pub hardened : Bool
  pub prefetch_off : Bool

-- `port` is whether there is a port. `handlers_made` numbers the handlers. The last three fields are the
-- locals of `connect` that its failure path reads.
pub record Client : Type 0 where
  pub browser : Browser
  pub port : Bool
  pub port_dead : Bool
  pub handshake : Bool
  pub proxied : Bool
  pub tunnel_up : Bool
  pub endpoints : Option Endpoints
  pub auth : Option ProxyAuth
  pub exit : Option TunnelExit
  pub connecting : Bool
  pub questions : ℕ
  pub releasing : Bool
  pub handler : Option Handler
  pub handlers_made : ℕ
  pub before : Option ProxySettings
  pub leaks_held : Bool
  pub hardened : Bool

abbrev pub is_listener : Text → Endpoints → Bool
is_listener listener e = is_http e.http || equal listener e.socks5
  where
    is_http : Option Text → Bool
    is_http none = false
    is_http (some http) = equal listener http

abbrev auth_for : Option ProxyAuth → Option Endpoints → Text → Option ProxyAuth
auth_for none endpoints listener = none
auth_for (some auth) none listener = none
auth_for (some auth) (some e) listener = if is_listener listener e then some auth else none

unfoldable pub for_listener : Client → Text → Option ProxyAuth
unfolding equal
for_listener c listener = auth_for c.auth c.endpoints listener

abbrev pub set_listeners : List Handler → Browser → Browser
set_listeners listeners b = record b { listeners = listeners }

abbrev pub remove_listener : ℕ → List Handler → List Handler
remove_listener id [] = []
remove_listener id (h ∷ hs) =
    let rest = remove_listener id hs in if h.id == id then rest else h ∷ rest

abbrev pub remove_handler : Option Handler → List Handler → List Handler
remove_handler none hs = hs
remove_handler (some h) hs = remove_listener h.id hs

-- `closePort`: the requests on it are rejected.
abbrev pub close_port : Client → Client
close_port c = record c { port = false; port_dead = false }

abbrev pub port_alive : Client → Bool
port_alive c = c.port && not c.port_dead

-- `openPort`, where the host can be spawned
unfoldable pub open_port : Client → Client
open_port c =
    if port_alive c then c else record c { port = true; port_dead = false; handshake = false }

-- What the handler of `registerFirefoxOnRequest` answers to a request, its host already parsed.
unfoldable pub handle_request :
    (Text → Text) → Client → Handler → TunnelRequest → List FirefoxProxyInfo
unfolding for_listener should_tunnel_request
handle_request lower c h request =
    if not (should_tunnel_request lower request h.split)
    then direct ∷ []
    else elim (for_listener c h.socks5) [
      | some auth ↦ socks_proxy_info h.socks5 auth ∷ []
      | none ↦ fail_closed_proxy
    ]

abbrev pub is_question_last : Client → Bool
is_question_last c = c.questions == 0 && (not c.tunnel_up && not c.connecting)

-- `asking`: the start of a question, which opens the port, and its end
unfoldable pub question_begins : Client → Client
unfolding open_port
question_begins c = open_port (record c { questions = suc c.questions })

unfoldable pub question_ends : Client → Client
question_ends c =
    let left : Client = record c { questions = c.questions - 1 } in
    if is_question_last left then close_port left else left

-- What may happen while a call waits: the host goes, or a question to it begins or ends.
pub data Event : Type 0 where
  host_lost question_begun question_ended : Event

module _ (is_firefox : Bool) (set_value : ProxySettings → ProxyValue → ProxySettings) where
  abbrev pub set_settings : ProxyValue → Browser → Browser
  set_settings v b = record b { settings = set_value b.settings v }

  -- `blockReleasedListener`
  abbrev pub block_released_listener : Browser → Browser
  block_released_listener b =
      if is_firefox then b else set_settings (build_chromium_lockdown_value []) b

  abbrev pub block_if : Bool → Browser → Browser
  block_if lost b = if lost then block_released_listener b else b

  -- The `onDisconnect` of a port that is open
  unfoldable pub on_disconnect : Client → Client
  unfolding build_chromium_lockdown_value
  on_disconnect c = record c {
    browser = block_if (c.tunnel_up && not c.releasing) c.browser;
    port_dead = true;
    tunnel_up = false;
    auth = none;
    exit = none;
  }

  abbrev pub happen : Event → Client → Client
  happen host_lost c = if port_alive c then on_disconnect c else c
  happen question_begun c = question_begins c
  happen question_ended c = question_ends c

  unfoldable pub happens : List Event → Client → Client
  unfolding on_disconnect question_begins question_ends
  happens [] c = c
  happens (e ∷ events) c = happens events (happen e c)
