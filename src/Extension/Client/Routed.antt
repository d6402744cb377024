-- ===== src/Extension/Client/Routed.antt =====
-- A connect that meets no obstacle: the tunnel comes up, and Chromium is routed through it.
use warren_sdk_ts.Prelude.{◌≡◌, Option, some, true, false}
use warren_sdk_ts.Discovery.Platform.{ok}
use warren_sdk_ts.Split.{Text}
use warren_sdk_ts.Extension.Values.{ProxyValue, build_chromium_proxy_value}
use warren_sdk_ts.Extension.Routing.{ProxyAuth}
use warren_sdk_ts.Extension.Routing.Chromium.{ProxySettings, is_ours, controllable}
use warren_sdk_ts.Extension.Client.State.{Endpoints, TunnelExit, Client, for_listener}
use warren_sdk_ts.Extension.Client.Connect.{ConnectRun, closes, connected}
use warren_sdk_ts.Extension.Client.Yields.{Yields, IsQuiet}

-- What a connect meets where nothing refuses it.
pub record IsSmooth (run : ConnectRun) (endpoints : Endpoints) (auth : ProxyAuth)
    (exit : Option TunnelExit) : Type 0 where
  pub spawns : run.spawns ≡ true
  pub answer : run.answer ≡ ok (connected endpoints (some auth) exit)
  pub hardening : run.hardening ≡ closes
  pub at_check : IsQuiet run.at_check
  pub at_request : IsQuiet run.at_request
  pub at_hardening : IsQuiet run.at_hardening
  pub at_set : IsQuiet run.at_set
  pub at_verify : IsQuiet run.at_verify

abbrev listeners : Text → Text → Endpoints
listeners http socks5 = record { http = some http; socks5 = socks5 }

module _ (lower : Text → Text) (set_value : ProxySettings → ProxyValue → ProxySettings)
    (cleared : ProxySettings) (http socks5 : Text) (auth : ProxyAuth) (run : ConnectRun) where
  -- The tunnel is up, Chromium points at its HTTP listener with its leaks closed, and the credentials of
  -- that listener are given.
  pub record IsRouted (c : Client) : Type 0 where
    pub tunnel_up : c.tunnel_up ≡ true
    pub proxied : c.proxied ≡ true
    pub connecting : c.connecting ≡ false
    pub hardened : c.browser.hardened ≡ true
    pub value : c.browser.settings.value ≡ build_chromium_proxy_value lower http run.split
    pub ours : is_ours c.browser.settings.level_of_control ≡ true
    pub credentials : for_listener c http ≡ some auth

  abbrev IsBegun : Client → Type 0
  IsBegun c = (c.connecting ≡ true) × (controllable c.browser.settings.level_of_control ≡ true)

  abbrev HasPort : Client → Type 0
  HasPort c = (c.connecting ≡ true) × (c.port_dead ≡ false)

  abbrev IsHardened : Client → Type 0
  IsHardened c = HasPort c × (c.browser.hardened ≡ true)

  abbrev Knows : Client → Type 0
  Knows c = IsHardened c × (c.endpoints ≡ some (listeners http socks5)) × (c.auth ≡ some auth)

  abbrev Points : Client → Type 0
  Points c =
      Knows c
      × (c.browser.settings.value ≡ build_chromium_proxy_value lower http run.split)
      × (is_ours c.browser.settings.level_of_control ≡ true)
