-- ===== src/Extension/Client/Leave.antt =====
-- A host that is lost, a tunnel that is replaced, and an explicit disconnect.
use warren_sdk_ts.Prelude.{
  ◌≡◌, ◌≢◌, ◌⊎◌, inl, inr, refl, sym, ap, ◌∙◌, List, [], ◌∷◌, none, Bool, true, false, not, arith,
  Bool-cases, if◌then◌else◌,
}
use warren_sdk_ts.Discovery.Platform.{Checked, ok, fail}
use warren_sdk_ts.Split.{Text, TunnelRequest, should_tunnel_request}
use warren_sdk_ts.Extension.Values.{ProxyValue, build_chromium_lockdown_value}
use warren_sdk_ts.Extension.Routing.{FirefoxProxyInfo, direct, fail_closed_proxy}
use warren_sdk_ts.Extension.Routing.Chromium.{ProxySettings, is_ours}
use warren_sdk_ts.Extension.Client.State.{
  WarrenExtensionErrorCode, Endpoints, Handler, Client, port_alive, open_port, remove_handler,
  for_listener, handle_request, question_begins, question_ends, on_disconnect, Event, host_lost,
  question_begun, question_ended, happen, happens,
}
use warren_sdk_ts.Extension.Client.Connect.{
  half_closes, ConnectRun, connect, remove_on_request_handler,
}
use warren_sdk_ts.Extension.Client.Release.{
  Clearing, not_cleared, leaks_kept, half_released, all_cleared, set_releasing, ask_to_leave,
  hold_on_lockdown, move_off, reconnect, clear_browser_settings, disconnect,
}
use warren_sdk_ts.Extension.Client.Triples.{Ends, Ends-else}
use warren_sdk_ts.Extension.Client.Stages.{IsNumbered}
use warren_sdk_ts.Extension.Client.Restore.{IsRestored}
use warren_sdk_ts.Extension.Client.Waiting.{IsUnasked}
use warren_sdk_ts.Extension.Client.Connected.{IsConnected, connect-Ends}

-- What the loss of a host leaves: nobody gets credentials, a request that the split sends into the tunnel
-- is refused by the handler, and Chromium is on the lockdown.
pub record IsHeld (lower : Text → Text) (is_firefox : Bool)
    (set_value : ProxySettings → ProxyValue → ProxySettings) (c d : Client) : Type 0 where
  pub proxied : d.proxied ≡ c.proxied
  pub tunnel_down : d.tunnel_up ≡ false
  pub no_credentials : (listener : Text) → for_listener d listener ≡ none
  pub refused :
      (h : Handler) (r : TunnelRequest)
      → handle_request lower d h r
        ≡ (if should_tunnel_request lower r h.split then fail_closed_proxy else direct ∷ [])
  pub blocked :
      (is_firefox ≡ true)
      ⊎ (d.browser.settings ≡ set_value c.browser.settings (build_chromium_lockdown_value []))

module _ (lower : Text → Text) (is_firefox : Bool)
    (set_value : ProxySettings → ProxyValue → ProxySettings) where
  swapped :
      (b : Bool) (x y : List FirefoxProxyInfo) → (if not b then x else y) ≡ (if b then y else x)
  swapped true x y = refl
  swapped false x y = refl

  -- When the host that carries a live tunnel is lost, outside a release, the browser stays proxied and the
  -- tunnel is down; no listener gets credentials any more, the Firefox handler answers every request
  -- that its split sends into the tunnel with the proxy that fails closed, and Chromium's settings are
  -- set to the lockdown.
  pub on_disconnect-IsHeld :
      (c : Client)
      → c.tunnel_up ≡ true
      → c.releasing ≡ false
      → IsHeld lower is_firefox set_value c (on_disconnect is_firefox set_value c)
  unfolding on_disconnect for_listener handle_request
  on_disconnect-IsHeld c up busy = record {
    proxied = refl;
    tunnel_down = refl;
    no_credentials = λ listener. refl;
    refused =
        λ h r. swapped (should_tunnel_request lower r h.split) (direct ∷ []) fail_closed_proxy;
    blocked = elim (Bool-cases is_firefox) [ inl e ↦ inl e | inr e ↦ inr (rw (up, busy, e) refl) ];
  }

  -- What stays as it is while the client releases its host.
  record Kept (c d : Client) : Type 0 where
    browser : d.browser ≡ c.browser
    releasing : d.releasing ≡ true
    proxied : d.proxied ≡ c.proxied
    connecting : d.connecting ≡ c.connecting
    handler : d.handler ≡ c.handler
    handlers_made : d.handlers_made ≡ c.handlers_made

  happen-Kept :
      (e : Event) (c : Client) → c.releasing ≡ true → Kept c (happen is_firefox set_value e c)
  unfolding on_disconnect question_begins question_ends open_port
  happen-Kept host_lost c h = ground arith
  happen-Kept question_begun c h = ground arith
  happen-Kept question_ended c h = ground arith

  happens-Kept :
      (events : List Event) (c : Client)
      → c.releasing ≡ true
      → Kept c (happens is_firefox set_value events c)
  unfolding happens
  happens-Kept [] c h = record {
    browser = refl;
    releasing = h;
    proxied = refl;
    connecting = refl;
    handler = refl;
    handlers_made = refl;
  }
  happens-Kept (e ∷ events) c h =
      let s = happen-Kept e c h in
      let t = happens-Kept events (happen is_firefox set_value e c) s.releasing in
      record {
        browser = t.browser ∙ s.browser;
        releasing = t.releasing;
        proxied = t.proxied ∙ s.proxied;
        connecting = t.connecting ∙ s.connecting;
        handler = t.handler ∙ s.handler;
        handlers_made = t.handlers_made ∙ s.handlers_made;
      }

  asked-Kept :
      (events : List Event) (c : Client)
      → c.releasing ≡ true
      → (cleared : ProxySettings)
      → Kept c (ask_to_leave lower is_firefox set_value cleared events c)
  asked-Kept events c h cleared = elim (Bool-cases (port_alive c)) [
    | inl e ↦ rw e (happens-Kept events c h)
    | inr e ↦ rw e (record {
      browser = refl;
      releasing = h;
      proxied = refl;
      connecting = refl;
      handler = refl;
      handlers_made = refl;
    })
  ]

-- A reconnect on Chromium that has failed: no tunnel and no credentials, and the browser on the lockdown.
pub record IsLockedDown (c d : Client) : Type 0 where
  pub tunnel_down : d.tunnel_up ≡ false
  pub auth : d.auth ≡ none
  pub proxied : d.proxied ≡ c.proxied
  pub locked : d.browser.settings.value ≡ build_chromium_lockdown_value []

module _ (lower : Text → Text) (set_value : ProxySettings → ProxyValue → ProxySettings)
    (cleared : ProxySettings) where
  -- A live tunnel on Chromium that is being moved off.
  record MovedOff (c d : Client) : Type 0 where
    settings : d.browser.settings ≡ set_value c.browser.settings (build_chromium_lockdown_value [])
    proxied : d.proxied ≡ c.proxied
    idle : d.connecting ≡ c.connecting
    tunnel_down : d.tunnel_up ≡ false
    numbered : IsNumbered d

  move_off-MovedOff :
      (events : List Event) (c : Client)
      → IsNumbered c
      → MovedOff c (move_off lower false set_value cleared events c)
  unfolding move_off
  move_off-MovedOff events c numbered =
      let held : Client = set_releasing true (hold_on_lockdown lower false set_value cleared c) in
      let k = asked-Kept lower false set_value events held refl cleared in
      record {
        settings = ap (λ x. x.settings) k.browser;
        proxied = k.proxied;
        idle = k.connecting;
        tunnel_down = refl;
        numbered = rw (k.browser, k.handlers_made, k.handler) numbered;
      }

  locked-Ends :
      (run : ConnectRun) (c d : Client) (r : Client × Checked WarrenExtensionErrorCode Endpoints)
      → MovedOff c d
      → ((s : ProxySettings) (v : ProxyValue) → (set_value s v).value ≡ v)
      → ((s : ProxySettings) (v : ProxyValue) → is_ours (set_value s v).level_of_control ≡ true)
      → Ends (IsConnected lower false run) (IsRestored cleared d) r
      → Ends (IsConnected lower false run) (IsLockedDown c) r
  locked-Ends run c d (e, ok endpoints) m takes controls up = up
  locked-Ends run c d (e, fail x) m takes controls r = record {
    tunnel_down = r.tunnel_down;
    auth = r.auth;
    proxied = r.proxied ∙ m.proxied;
    locked = go r.settings;
  }
    where
      lockdown : d.browser.settings.value ≡ build_chromium_lockdown_value []
      lockdown = ap (λ s. s.value) m.settings ∙ takes c.browser.settings _

      ours : is_ours d.browser.settings.level_of_control ≡ true
      ours = rw m.settings (controls c.browser.settings _)

      go :
          (e.browser.settings.value ≡ d.browser.settings.value)
            ⊎ ((is_ours d.browser.settings.level_of_control ≡ false)
                × (e.browser.settings ≡ cleared))
          → e.browser.settings.value ≡ build_chromium_lockdown_value []
      go (inl same) = same ∙ lockdown
      go (inr (others, gone)) = absurd (let k = sym ours ∙ others in cc)

  -- A reconnect of a live tunnel on Chromium, however often the host is lost while the old tunnel leaves
  -- and the new one is built, either brings the new tunnel up, with the leaks closed, the settings
  -- pointed at the HTTP listener that the host answered with and its credentials held, or leaves the
  -- browser on the lockdown, still proxied and with no credentials. No question to a host is to begin
  -- while the routing is set and verified, the browser is not to refuse the second leak setting behind
  -- the first, it is assumed to hold the values that it is given and to report them as this
  -- extension's, and handlers are to be numbered in the order of their registration.
  pub reconnect-Ends :
      (at_release : List Event) (run : ConnectRun) (c : Client)
      → IsNumbered c
      → run.hardening ≢ half_closes
      → IsUnasked run.at_set
      → IsUnasked run.at_verify
      → c.tunnel_up ≡ true
      → c.connecting ≡ false
      → ((s : ProxySettings) (v : ProxyValue) → (set_value s v).value ≡ v)
      → ((s : ProxySettings) (v : ProxyValue) → is_ours (set_value s v).level_of_control ≡ true)
      → Ends
          (IsConnected lower false run)
          (IsLockedDown c)
          (reconnect lower false set_value cleared at_release run c)
  unfolding reconnect
  reconnect-Ends at_release run c numbered whole quiet_set quiet_verify up idle takes controls =
      let moved : Client = move_off lower false set_value cleared at_release c in
      let m = move_off-MovedOff at_release c numbered in
      let Up = IsConnected lower false run in
      Ends-else Up (IsLockedDown c) (not c.tunnel_up) _ _ (rw up refl) (
        Ends-else Up (IsLockedDown c) c.connecting _ _ idle (
          locked-Ends run c moved (connect lower false set_value cleared run moved) m takes controls
            (connect-Ends lower false set_value cleared run moved m.numbered whole quiet_set
              quiet_verify (m.idle ∙ idle) m.tunnel_down takes)))

-- What an explicit disconnect leaves of the browser, by how far the clearing of its settings came: the
-- settings, whether the leak settings are held, and whether the browser counts as proxied.
abbrev pub IsCleared : ProxySettings → Clearing → Client → Client → Type 0
IsCleared cleared not_cleared c d =
    (d.browser.settings ≡ c.browser.settings)
    × (d.browser.hardened ≡ c.browser.hardened)
    × (d.browser.prefetch_off ≡ c.browser.prefetch_off)
    × (d.proxied ≡ c.proxied)
IsCleared cleared leaks_kept c d =
    (d.browser.settings ≡ cleared)
    × (d.browser.hardened ≡ c.browser.hardened)
    × (d.browser.prefetch_off ≡ c.browser.prefetch_off)
    × (d.proxied ≡ c.proxied)
IsCleared cleared half_released c d =
    (d.browser.settings ≡ cleared)
    × (d.browser.hardened ≡ false)
    × (d.browser.prefetch_off ≡ c.browser.prefetch_off)
    × (d.proxied ≡ c.proxied)
IsCleared cleared all_cleared c d =
    (d.browser.settings ≡ cleared)
    × (d.browser.hardened ≡ false)
    × (d.browser.prefetch_off ≡ false)
    × (d.proxied ≡ false)

pub record IsReleased (cleared : ProxySettings) (clearing : Clearing) (c d : Client) : Type 0 where
  pub tunnel_down : d.tunnel_up ≡ false
  pub endpoints : d.endpoints ≡ none
  pub auth : d.auth ≡ none
  pub port : d.port ≡ false
  pub releasing : d.releasing ≡ false
  pub handler : d.handler ≡ none
  pub listeners : d.browser.listeners ≡ remove_handler c.handler c.browser.listeners
  pub browser : IsCleared cleared clearing c d

module _ (lower : Text → Text) (is_firefox : Bool)
    (set_value : ProxySettings → ProxyValue → ProxySettings) (cleared : ProxySettings) where
  -- An explicit disconnect, whatever happens while the host is asked to leave, lets the tunnel, its
  -- credentials and its port go and takes its own handler out. Where the proxy settings and both leak
  -- settings are cleared, the browser no longer counts as proxied; where one is refused, the call fails
  -- there, what comes before it is cleared, what comes after it is left, and the browser still counts
  -- as proxied. A host that exits meanwhile is not taken for a lost one.
  pub disconnect-IsReleased :
      (at_release : List Event) (clearing : Clearing) (c : Client)
      → IsReleased cleared clearing c
          (disconnect lower is_firefox set_value cleared at_release clearing c)
  unfolding disconnect clear_browser_settings remove_on_request_handler
  disconnect-IsReleased at_release clearing c =
      go clearing
        (asked-Kept lower is_firefox set_value at_release (set_releasing true c) refl cleared)
    where
      go :
          (o : Clearing)
          → Kept lower is_firefox set_value
              (set_releasing true c)
              (ask_to_leave lower is_firefox set_value cleared at_release (set_releasing true c))
          → IsReleased cleared o c (disconnect lower is_firefox set_value cleared at_release o c)
      go not_cleared k = record {
        tunnel_down = refl;
        endpoints = refl;
        auth = refl;
        port = refl;
        releasing = refl;
        handler = refl;
        listeners = rw (k.handler, k.browser) refl;
        browser = (
          ap (λ x. x.settings) k.browser,
          ap (λ x. x.hardened) k.browser,
          ap (λ x. x.prefetch_off) k.browser,
          k.proxied,
        );
      }
      go leaks_kept k = record {
        tunnel_down = refl;
        endpoints = refl;
        auth = refl;
        port = refl;
        releasing = refl;
        handler = refl;
        listeners = rw (k.handler, k.browser) refl;
        browser =
            (refl, ap (λ x. x.hardened) k.browser, ap (λ x. x.prefetch_off) k.browser, k.proxied);
      }
      go half_released k = record {
        tunnel_down = refl;
        endpoints = refl;
        auth = refl;
        port = refl;
        releasing = refl;
        handler = refl;
        listeners = rw (k.handler, k.browser) refl;
        browser = (refl, refl, ap (λ x. x.prefetch_off) k.browser, k.proxied);
      }
      go all_cleared k = record {
        tunnel_down = refl;
        endpoints = refl;
        auth = refl;
        port = refl;
        releasing = refl;
        handler = refl;
        listeners = rw (k.handler, k.browser) refl;
        browser = (refl, refl, refl, refl);
      }
