-- ===== src/Extension/Client/Examples.antt =====
-- The theorems on the extension's client at a client of Firefox and one of Chromium.
use warren_sdk_ts.Prelude.{◌≡◌, refl, List, [], ◌∷◌, none, some, true, false}
use warren_sdk_ts.Discovery.Json.{codes}
use warren_sdk_ts.Discovery.Platform.{ok}
use warren_sdk_ts.Split.{Text, all, SplitTunnelConfig}
use warren_sdk_ts.Extension.Values.{
  ProxyValue, other, build_chromium_proxy_value, build_firefox_proxy_value,
}
use warren_sdk_ts.Extension.Routing.{ProxyAuth}
use warren_sdk_ts.Extension.Routing.Chromium.{
  ProxySettings, controlled_by_this_extension, controllable_by_this_extension,
}
use warren_sdk_ts.Extension.Client.State.{
  Endpoints, Handler, Client, open_port, question_begins, on_disconnect, host_lost, question_begun,
  Event, happens,
}
use warren_sdk_ts.Extension.Client.Connect.{
  ConnectRun, closes, half_closes, connected, ◌>>=◌, ◌>>◌, modify, check, lift,
  register_firefox_on_request, remove_on_request_handler, apply_proxy, verify_routing, prepare,
  route, take_answer, arrive, attempt, on_failure, connect,
}
use warren_sdk_ts.Extension.Client.Release.{
  reconnect, swap, apply_split, clear_browser_settings, disconnect, leaks_kept, all_cleared,
}
use warren_sdk_ts.Extension.Client.Triples.{Ends}
use warren_sdk_ts.Extension.Client.Connected.{IsConnected}
use warren_sdk_ts.Extension.Client.Leave.{
  IsHeld, on_disconnect-IsHeld, IsLockedDown, reconnect-Ends, IsReleased, disconnect-IsReleased,
}

abbrev same : Text → Text
same t = t

abbrev set_value : ProxySettings → ProxyValue → ProxySettings
set_value s v = record { value = v; level_of_control = controlled_by_this_extension }

abbrev cleared : ProxySettings
cleared = record { value = other; level_of_control = controllable_by_this_extension }

abbrev client : Client
client = record {
  browser = record { settings = cleared; listeners = []; hardened = false; prefetch_off = false };
  port = false;
  port_dead = false;
  handshake = false;
  proxied = false;
  tunnel_up = false;
  endpoints = none;
  auth = none;
  exit = none;
  connecting = false;
  questions = 0;
  releasing = false;
  handler = none;
  handlers_made = 0;
  before = none;
  leaks_held = false;
  hardened = false;
}

abbrev endpoints : Endpoints
endpoints = record { http = some (codes "127.0.0.1:9"); socks5 = codes "127.0.0.1:8" }

abbrev auth : ProxyAuth
auth = record { username = codes "u"; password = codes "p" }

abbrev everything : SplitTunnelConfig
everything = record { mode = all; rules = []; tabs = none }

abbrev meets : List Event → ConnectRun
meets at_verify = record {
  split = everything;
  is_allowed = some true;
  has_on_request = true;
  spawns = true;
  answer = ok (connected endpoints (some auth) none);
  hardening = closes;
  applies = true;
  at_check = [];
  at_request = [];
  at_hardening = [];
  at_set = [];
  at_verify = at_verify;
}

abbrev live : Client
live = record client {
  port = true;
  proxied = true;
  tunnel_up = true;
  endpoints = some endpoints;
  auth = some auth;
}

on_disconnect-IsHeld_example : IsHeld same false set_value live (on_disconnect false set_value live)
on_disconnect-IsHeld_example = on_disconnect-IsHeld same false set_value live refl refl

reconnect-Ends_example :
    Ends
      (IsConnected same false (meets (host_lost ∷ [])))
      (IsLockedDown live)
      (reconnect same false set_value cleared (host_lost ∷ []) (meets (host_lost ∷ [])) live)
reconnect-Ends_example =
    reconnect-Ends same set_value cleared (host_lost ∷ []) (meets (host_lost ∷ [])) live (tt, tt)
      (λ e. cc) tt tt refl refl (λ s v. refl) (λ s v. refl)

disconnect-IsReleased_example :
    IsReleased cleared leaks_kept live
      (disconnect same false set_value cleared (host_lost ∷ []) leaks_kept live)
disconnect-IsReleased_example =
    disconnect-IsReleased same false set_value cleared (host_lost ∷ []) leaks_kept live

-- A host that is lost while the routing is verified, with a question behind it that opens a new port: the
-- connect takes the new port for its host's, and returns a tunnel with no credentials.
test_host_lost_then_asked :
    (connect same false set_value cleared (meets (host_lost ∷ question_begun ∷ [])) client).1
    ≡ ok endpoints
unfolding connect attempt prepare route take_answer arrive apply_proxy verify_routing ◌>>=◌ ◌>>◌
    modify check lift happens on_disconnect question_begins open_port build_chromium_proxy_value
test_host_lost_then_asked = refl

test_no_credentials :
    (connect same false set_value cleared (meets (host_lost ∷ question_begun ∷ [])) client).0.auth
    ≡ none
unfolding connect attempt prepare route take_answer arrive apply_proxy verify_routing ◌>>=◌ ◌>>◌
    modify check lift happens on_disconnect question_begins open_port build_chromium_proxy_value
test_no_credentials = refl

-- Firefox with the handler of a live tunnel
abbrev old : Handler
old = record { id = 0; socks5 = codes "127.0.0.1:8"; split = everything }

abbrev routed : Client
routed = record live {
  browser = record live.browser { listeners = old ∷ [] };
  handler = some old;
  handlers_made = 1;
}

-- Split rules whose settings are refused leave the old handler behind, which a later disconnect does not
-- remove.
test_handler_left_behind :
    (disconnect same true set_value cleared [] all_cleared
      (apply_split same true set_value cleared false [] everything routed).0).browser.listeners
    ≡ old ∷ []
unfolding disconnect clear_browser_settings apply_split swap apply_proxy register_firefox_on_request
    remove_on_request_handler verify_routing ◌>>=◌ ◌>>◌ modify check lift happens
    build_firefox_proxy_value
test_handler_left_behind = refl

-- A browser that refuses the second leak setting behind the first: the connect fails and leaves the first
-- one closed.
test_leaks_left :
    let failed =
      connect same false set_value cleared (record (meets []) { hardening = half_closes }) client in
    (failed.0.browser.hardened ≡ true) × (failed.0.browser.prefetch_off ≡ false)
unfolding connect attempt prepare route take_answer ◌>>=◌ ◌>>◌ modify check lift happens on_failure
    open_port
test_leaks_left = (refl, refl)
