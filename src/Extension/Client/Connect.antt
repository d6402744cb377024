-- ===== src/Extension/Client/Connect.antt =====
-- packages/extension/src/client.ts: `connect`, `reconnect` and `applySplit`. Each `await` comes with the
-- events that happen while it waits; the other calls of the user are not made during one of these.
use warren_sdk_ts.Prelude.{
  suc, List, [], ◌∷◌, ◌++◌, Option, none, some, Bool, true, false, not, ◌&&◌, ◌||◌, if◌then◌else◌,
}
use warren_sdk_ts.Discovery.Platform.{Checked, ok, fail}
use warren_sdk_ts.Split.{Text, is_only, SplitTunnelConfig}
use warren_sdk_ts.Extension.Values.{
  ProxyValue, build_chromium_proxy_value, build_firefox_proxy_value,
}
use warren_sdk_ts.Extension.Routing.{ProxyAuth}
use warren_sdk_ts.Extension.Routing.Chromium.{ProxySettings, is_ours, controllable}
use warren_sdk_ts.Extension.Client.State.{
  WarrenExtensionErrorCode, host_unavailable, protocol, already_connected, proxy_uncontrollable,
  private_browsing_required, uncaught, Endpoints, TunnelExit, Handler, Client, set_listeners,
  remove_handler, close_port, port_alive, open_port, Event, set_settings, happens,
}

-- The host's answer to a `connect`, its credentials checked by `listenerAuth`
pub data HostAnswer : Type 0 where
  connected : Endpoints → Option ProxyAuth → Option TunnelExit → HostAnswer
  unexpected : HostAnswer

-- What `hardenBrowserLeaks` comes to: both settings are taken, the first is refused, or the second is
-- refused behind the first.
pub data Hardening : Type 0 where
  closes refuses half_closes : Hardening

-- What a connect meets: the options' split, whether Firefox allows private windows and has per-request
-- routing, whether the host spawns, what it answers, whether Firefox applies the settings, and the
-- events at each `await`.
pub record ConnectRun : Type 0 where
  pub split : SplitTunnelConfig
  pub is_allowed : Option Bool
  pub has_on_request : Bool
  pub spawns : Bool
  pub answer : Checked WarrenExtensionErrorCode HostAnswer
  pub hardening : Hardening
  pub applies : Bool
  pub at_check : List Event
  pub at_request : List Event
  pub at_hardening : List Event
  pub at_set : List Event
  pub at_verify : List Event

abbrev pub Pass : Type 0 → Type 0
Pass A = Client → Client × Checked WarrenExtensionErrorCode A

abbrev pub settle :
    {A B : Type 0}
    → Client × Checked WarrenExtensionErrorCode A
    → (A → Pass B)
    → Client × Checked WarrenExtensionErrorCode B
settle (c, ok a) f = f a c
settle (c, fail e) f = (c, fail e)

infixl 5 ◌>>=◌ ◌>>◌
unfoldable pub ◌>>=◌ : {A B : Type 0} → Pass A → (A → Pass B) → Pass B
(m >>= f) c = settle (m c) f

unfoldable pub ◌>>◌ : {A B : Type 0} → Pass A → Pass B → Pass B
(m >> k) c = settle (m c) (λ _. k)

unfoldable pub modify : (Client → Client) → Pass (Unit {0})
modify f c = (f c, ok tt)

unfoldable pub check : (Client → Bool) → WarrenExtensionErrorCode → Pass (Unit {0})
check test e c = (c, if test c then ok tt else fail e)

unfoldable pub lift : {A : Type 0} → Checked WarrenExtensionErrorCode A → Pass A
lift r c = (c, r)

abbrev pub pass_if : Bool → Pass (Unit {0}) → Pass (Unit {0})
pass_if test m c = if test then m c else (c, ok tt)

abbrev pub has_handler : Option Handler → Bool
has_handler none = false
has_handler (some h) = true

abbrev pub is_forbidden : Option Bool → Bool
is_forbidden none = false
is_forbidden (some allowed) = not allowed

-- `registerFirefoxOnRequest`
abbrev pub new_handler : Client → Text → SplitTunnelConfig → Handler
new_handler c socks5 split = record { id = c.handlers_made; socks5 = socks5; split = split }

unfoldable pub register_firefox_on_request : Text → SplitTunnelConfig → Client → Client
register_firefox_on_request socks5 split c = record c {
  browser = set_listeners (c.browser.listeners ++ (new_handler c socks5 split ∷ [])) c.browser;
  handler = some (new_handler c socks5 split);
  handlers_made = suc c.handlers_made;
}

unfoldable pub remove_on_request_handler : Client → Client
remove_on_request_handler c = record c {
  browser = set_listeners (remove_handler c.handler c.browser.listeners) c.browser;
  handler = none;
}

abbrev pub set_hardened : Client → Client
set_hardened c = record c { browser = record c.browser { hardened = true; prefetch_off = true } }

-- `hardenBrowserLeaks`
abbrev pub harden : Hardening → Client → Client
harden closes c = set_hardened c
harden half_closes c = record c { browser = record c.browser { hardened = true } }
harden refuses c = c

abbrev pub is_closed : Hardening → Bool
is_closed closes = true
is_closed refuses = false
is_closed half_closes = false

abbrev pub holds_ours : Option ProxySettings → Bool
holds_ours none = false
holds_ours (some s) = is_ours s.level_of_control

module _ (lower : Text → Text) (is_firefox : Bool)
    (set_value : ProxySettings → ProxyValue → ProxySettings) (cleared : ProxySettings) where
  abbrev pub set_proxy : ProxyValue → Client → Client
  set_proxy v c = record c { browser = set_settings is_firefox set_value v c.browser }

  abbrev pub set_chromium : Option Text → SplitTunnelConfig → Pass (Unit {0})
  set_chromium none split = lift (fail protocol)
  set_chromium (some http) split = modify (set_proxy (build_chromium_proxy_value lower http split))

  unfoldable pub apply_proxy : Bool → Endpoints → SplitTunnelConfig → Pass (Unit {0})
  unfolding register_firefox_on_request build_firefox_proxy_value build_chromium_proxy_value
  apply_proxy applies endpoints split c =
      if is_firefox
      then (if is_only split.mode
            then modify (register_firefox_on_request endpoints.socks5 split)
            else (do
              modify (register_firefox_on_request endpoints.socks5 split)
              modify (set_proxy (build_firefox_proxy_value endpoints.socks5 split))
              check (λ _. applies) proxy_uncontrollable))
          c
      else set_chromium endpoints.http split c

  abbrev pub routes_by_handler : SplitTunnelConfig → Client → Bool
  routes_by_handler split c = is_firefox && (is_only split.mode && has_handler c.handler)

  unfoldable pub verify_routing : SplitTunnelConfig → Pass (Unit {0})
  verify_routing split =
      check (λ c. routes_by_handler split c || is_ours c.browser.settings.level_of_control)
        proxy_uncontrollable

  abbrev pub wait : List Event → Pass (Unit {0})
  wait events = modify (happens is_firefox set_value events)

  abbrev pub assert_host_alive : Pass (Unit {0})
  assert_host_alive = check (λ c. not c.port_dead) host_unavailable

  -- Up to the request: nothing of the browser is touched.
  unfoldable pub prepare : ConnectRun → Pass (Unit {0})
  unfolding happens open_port
  prepare run = do
    check (λ c. controllable c.browser.settings.level_of_control) proxy_uncontrollable
    modify (λ c. record c { before = some c.browser.settings; leaks_held = c.browser.hardened })
    wait run.at_check
    check (λ _. not is_firefox || not (is_forbidden run.is_allowed)) private_browsing_required
    check (λ _. not is_firefox || run.has_on_request) proxy_uncontrollable
    check (λ c. port_alive c || run.spawns) host_unavailable
    modify open_port
    wait run.at_request

  -- From the credentials on: the leaks are closed, then the browser is routed.
  unfoldable pub route : ConnectRun → Endpoints → ProxyAuth → Pass (Unit {0})
  unfolding happens apply_proxy verify_routing
  route run endpoints auth = do
    modify (harden run.hardening)
    wait run.at_hardening
    check (λ _. is_closed run.hardening) uncaught
    modify (λ c. record c { hardened = true })
    assert_host_alive
    modify (λ c. record c { endpoints = some endpoints; auth = some auth })
    apply_proxy run.applies endpoints run.split
    wait run.at_set
    verify_routing run.split
    wait run.at_verify
    assert_host_alive

  unfoldable pub arrive : Option Handler → Option TunnelExit → Client → Client
  arrive held exit c = record c {
    browser = set_listeners (remove_handler held c.browser.listeners) c.browser;
    proxied = true;
    tunnel_up = true;
    exit = exit;
  }

  unfoldable pub take_answer : ConnectRun → Option Handler → HostAnswer → Pass Endpoints
  unfolding route arrive
  take_answer run held unexpected = lift (fail protocol)
  take_answer run held (connected endpoints none exit) = lift (fail protocol)
  take_answer run held (connected endpoints (some auth) exit) = do
    route run endpoints auth
    modify (arrive held exit)
    lift (ok endpoints)

  unfoldable pub attempt : ConnectRun → Option Handler → Pass Endpoints
  unfolding prepare take_answer
  attempt run held = do prepare run; answer ← lift run.answer; take_answer run held answer

  abbrev pub start : Client → Client
  start c = record c {
    connecting = true;
    handler = none;
    before = none;
    leaks_held = false;
    hardened = false;
  }

  abbrev pub restored_settings : Option ProxySettings → ProxySettings → ProxySettings
  restored_settings none s = cleared
  restored_settings (some b) s = if is_ours b.level_of_control then set_value s b.value else cleared

  unfoldable pub restore_browser_settings : Client → Client
  unfolding remove_on_request_handler
  restore_browser_settings c =
      let bare : Client = remove_on_request_handler c in
      record bare {
        browser = record bare.browser {
          settings = restored_settings c.before bare.browser.settings;
          hardened = bare.browser.hardened && (c.leaks_held || holds_ours c.before);
          prefetch_off = bare.browser.prefetch_off && (c.leaks_held || holds_ours c.before);
        };
      }

  unfoldable pub on_failure : Option Handler → Client → Client
  unfolding restore_browser_settings
  on_failure held c =
      let bare : Client = record c { endpoints = none; auth = none } in
      let undone : Client = if c.hardened then restore_browser_settings bare else bare in
      close_port (record undone { handler = held; connecting = false })

  abbrev pub finish :
      Option Handler
      → Client × Checked WarrenExtensionErrorCode Endpoints
      → Client × Checked WarrenExtensionErrorCode Endpoints
  finish held (c, ok endpoints) = (record c { connecting = false }, ok endpoints)
  finish held (c, fail e) = (on_failure held c, fail e)

  unfoldable pub connect : ConnectRun → Pass Endpoints
  unfolding attempt on_failure
  connect run c =
      if c.connecting || c.tunnel_up
      then (c, fail already_connected)
      else finish c.handler (attempt run c.handler (start c))
