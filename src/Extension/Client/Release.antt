-- ===== src/Extension/Client/Release.antt =====
-- packages/extension/src/client.ts: `reconnect`, `applySplit` and `disconnect`.
use warren_sdk_ts.Prelude.{List, [], Option, none, some, Bool, true, false, not, if◌then◌else◌}
use warren_sdk_ts.Discovery.Platform.{fail}
use warren_sdk_ts.Split.{Text, SplitTunnelConfig}
use warren_sdk_ts.Extension.Values.{ProxyValue, build_chromium_lockdown_value}
use warren_sdk_ts.Extension.Routing.Chromium.{ProxySettings}
use warren_sdk_ts.Extension.Client.State.{
  already_connected, not_connected, Endpoints, Handler, Client, set_listeners, remove_handler,
  close_port, port_alive, Event, happens,
}
use warren_sdk_ts.Extension.Client.Connect.{
  ConnectRun, Pass, ◌>>◌, modify, lift, remove_on_request_handler, set_proxy, apply_proxy,
  verify_routing, wait, connect,
}

-- The tunnel is gone, with what belongs to it.
abbrev pub let_go : Client → Client
let_go c = close_port (record c { tunnel_up = false; endpoints = none; auth = none; exit = none })

abbrev pub set_releasing : Bool → Client → Client
set_releasing b c = record c { releasing = b }

-- How far `clearBrowserSettings` comes: the settings are not cleared, they are and the first leak setting
-- is not, it is and the second is not, or all are.
pub data Clearing : Type 0 where
  not_cleared leaks_kept half_released all_cleared : Clearing

abbrev pub is_all : Clearing → Bool
is_all not_cleared = false
is_all leaks_kept = false
is_all half_released = false
is_all all_cleared = true

module _ (lower : Text → Text) (is_firefox : Bool)
    (set_value : ProxySettings → ProxyValue → ProxySettings) (cleared : ProxySettings) where
  -- The wait for the host's acknowledgement, bounded by a timer: what happens meanwhile
  abbrev pub ask_to_leave : List Event → Client → Client
  ask_to_leave events c = if port_alive c then happens is_firefox set_value events c else c

  abbrev pub hold_on_lockdown : Client → Client
  hold_on_lockdown c =
      if is_firefox
      then c
      else set_proxy lower is_firefox set_value cleared (build_chromium_lockdown_value []) c

  unfoldable pub move_off : List Event → Client → Client
  unfolding build_chromium_lockdown_value happens
  move_off at_release c =
      set_releasing false
        (let_go (ask_to_leave at_release (set_releasing true (hold_on_lockdown c))))

  unfoldable pub reconnect : List Event → ConnectRun → Pass Endpoints
  unfolding move_off connect
  reconnect at_release run c =
      if not c.tunnel_up
      then connect lower is_firefox set_value cleared run c
      else if c.connecting
      then (c, fail already_connected)
      else connect lower is_firefox set_value cleared run (move_off at_release c)

  -- The new handler goes in before the old one comes out.
  unfoldable pub swap :
      Bool → List Event → Endpoints → SplitTunnelConfig → Option Handler → Pass (Unit {0})
  unfolding apply_proxy happens verify_routing
  swap applies at_set endpoints split previous = do
    modify (λ c. record c { handler = none })
    apply_proxy lower is_firefox set_value cleared applies endpoints split
    wait lower is_firefox set_value cleared at_set
    modify (λ c. record c {
      browser = set_listeners (remove_handler previous c.browser.listeners) c.browser;
    })
    verify_routing lower is_firefox set_value cleared split

  abbrev swap_on :
      Bool → List Event → SplitTunnelConfig → Option Endpoints → Option Handler → Pass (Unit {0})
  swap_on applies at_set split none previous = lift (fail not_connected)
  swap_on applies at_set split (some endpoints) previous =
      swap applies at_set endpoints split previous

  unfoldable pub apply_split : Bool → List Event → SplitTunnelConfig → Pass (Unit {0})
  unfolding swap
  apply_split applies at_set split c =
      if c.tunnel_up
      then swap_on applies at_set split c.endpoints c.handler c
      else (c, fail not_connected)

  -- What is left once the handler is out: `settings.clear` comes first, then the two leak settings.
  abbrev pub clear_settings : Clearing → Client → Client
  clear_settings not_cleared c = c
  clear_settings leaks_kept c = record c { browser = record c.browser { settings = cleared } }
  clear_settings half_released c = record c {
    browser = record c.browser { settings = cleared; hardened = false };
  }
  clear_settings all_cleared c = record c {
    browser = record c.browser { settings = cleared; hardened = false; prefetch_off = false };
  }

  unfoldable pub clear_browser_settings : Clearing → Client → Client
  unfolding remove_on_request_handler
  clear_browser_settings clearing c = clear_settings clearing (remove_on_request_handler c)

  -- Unless everything is cleared, the call fails there and the browser still counts as proxied.
  unfoldable pub disconnect : List Event → Clearing → Client → Client
  unfolding happens clear_browser_settings remove_on_request_handler
  disconnect at_release clearing c =
      let asked : Client = ask_to_leave at_release (set_releasing true c) in
      let bare : Client = clear_browser_settings clearing asked in
      set_releasing false
        (let_go (if is_all clearing then record bare { proxied = false } else bare))
