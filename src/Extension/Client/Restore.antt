-- ===== src/Extension/Client/Restore.antt =====
-- What a connect leaves behind.
use warren_sdk_ts.Prelude.{
  ◌≡◌, ◌≢◌, ◌⊎◌, inl, inr, refl, ap, Option, none, some, Bool, true, false, ◌&&◌, ◌||◌, Bool-cases,
}
use warren_sdk_ts.Discovery.Platform.{Checked, ok, fail}
use warren_sdk_ts.Split.{Text}
use warren_sdk_ts.Extension.Values.{ProxyValue}
use warren_sdk_ts.Extension.Routing.Chromium.{ProxySettings, is_ours}
use warren_sdk_ts.Extension.Client.State.{
  WarrenExtensionErrorCode, Endpoints, TunnelExit, Handler, Client,
}
use warren_sdk_ts.Extension.Client.Connect.{
  ConnectRun, half_closes, HostAnswer, connected, unexpected, lift, arrive, take_answer, attempt,
  start, finish, remove_on_request_handler, restored_settings, restore_browser_settings, on_failure,
  connect,
}
use warren_sdk_ts.Extension.Client.Triples.{
  Ends, Triple, then_triple, bind_triple, modify_triple, lift_triple, Ends-else, neither,
}
use warren_sdk_ts.Extension.Client.Stages.{Untouched, Read, Routing, Failing, IsNumbered}
use warren_sdk_ts.Extension.Client.Passing.{prepare_triple, route_triple}

-- A connect that has brought its tunnel up: the browser counts as proxied, with both leaks closed.
pub record IsUp (c : Client) : Type 0 where
  pub tunnel_up : c.tunnel_up ≡ true
  pub proxied : c.proxied ≡ true
  pub hardened : c.browser.hardened ≡ true
  pub prefetch_off : c.browser.prefetch_off ≡ true

-- A connect from `b` that has failed: no tunnel, no credentials, no port, the handlers as they were,
-- the settings with the value that they had or, where they were not this extension's, cleared, the
-- WebRTC setting as it was or, where the settings were this extension's, closed, and the prefetcher's
-- as it was or as the WebRTC one.
pub record IsRestored (cleared : ProxySettings) (b c : Client) : Type 0 where
  pub tunnel_down : c.tunnel_up ≡ false
  pub endpoints : c.endpoints ≡ none
  pub auth : c.auth ≡ none
  pub port : c.port ≡ false
  pub proxied : c.proxied ≡ b.proxied
  pub handler : c.handler ≡ b.handler
  pub listeners : c.browser.listeners ≡ b.browser.listeners
  pub settings :
      (c.browser.settings.value ≡ b.browser.settings.value)
      ⊎ ((is_ours b.browser.settings.level_of_control ≡ false) × (c.browser.settings ≡ cleared))
  pub leaks :
      (c.browser.hardened ≡ b.browser.hardened)
      ⊎ ((is_ours b.browser.settings.level_of_control ≡ true) × (c.browser.hardened ≡ true))
  pub prefetch :
      (c.browser.prefetch_off ≡ b.browser.prefetch_off)
      ⊎ (c.browser.prefetch_off ≡ c.browser.hardened)

module _ (lower : Text → Text) (is_firefox : Bool)
    (set_value : ProxySettings → ProxyValue → ProxySettings) (cleared : ProxySettings) where
  module _ (b : Client) (numbered : IsNumbered b) where
    arrive-IsUp :
        (held : Option Handler) (exit : Option TunnelExit) (c : Client)
        → Routing b c
        → IsUp (arrive lower is_firefox set_value cleared held exit c)
    unfolding arrive
    arrive-IsUp held exit c r = record {
      tunnel_up = refl;
      proxied = refl;
      hardened = r.touched.hardened;
      prefetch_off = r.touched.prefetch_off;
    }

    refused_triple :
        (e : WarrenExtensionErrorCode)
        → Triple {A = Endpoints} (Read b) (lift (fail e)) IsUp (Failing b)
    refused_triple e = record { ends = λ c r. unfold lift in inl r.untouched }

    returned_triple : (endpoints : Endpoints) → Triple IsUp (lift (ok endpoints)) IsUp (Failing b)
    unfolding lift
    returned_triple endpoints = record { ends = λ c up. up }

    take_answer_triple :
        (run : ConnectRun) (held : Option Handler) (answer : HostAnswer)
        → run.hardening ≢ half_closes
        → Triple
            (Read b)
            (take_answer lower is_firefox set_value cleared run held answer)
            IsUp
            (Failing b)
    unfolding take_answer
    take_answer_triple run held unexpected whole = refused_triple _
    take_answer_triple run held (connected endpoints none exit) whole = refused_triple _
    take_answer_triple run held (connected endpoints (some auth) exit) whole =
        then_triple
          (route_triple b numbered lower is_firefox set_value cleared run endpoints auth whole)
          (then_triple {Q = IsUp} (modify_triple _ (arrive-IsUp held exit))
            (returned_triple endpoints))

    attempt_triple :
        (run : ConnectRun) (held : Option Handler)
        → run.hardening ≢ half_closes
        → Triple
            (Untouched b)
            (attempt lower is_firefox set_value cleared run held)
            IsUp
            (Failing b)
    unfolding attempt
    attempt_triple run held whole =
        then_triple (prepare_triple b numbered lower is_firefox set_value cleared run) (
          bind_triple {Q = Read b} (lift_triple run.answer (λ c r. inl r.untouched))
            (λ a. take_answer_triple run held a whole))

    -- What the failure path makes of a client that was about to route.
    IsRestored-Routing :
        (held : Option Handler) (c : Client)
        → held ≡ b.handler
        → ((s : ProxySettings) (v : ProxyValue) → (set_value s v).value ≡ v)
        → Routing b c
        → IsRestored cleared b (on_failure lower is_firefox set_value cleared held c)
    unfolding on_failure restore_browser_settings remove_on_request_handler
    IsRestored-Routing held c same takes r =
        rw (on_failure, r.marked)
          (record {
            tunnel_down = r.touched.tunnel_down;
            endpoints = refl;
            auth = refl;
            port = refl;
            proxied = r.touched.proxied;
            handler = same;
            listeners = r.touched.listeners;
            settings =
                rw r.touched.before
                  (settings (Bool-cases (is_ours b.browser.settings.level_of_control)));
            leaks =
                rw (r.touched.hardened, r.touched.leaks_held, r.touched.before)
                  (leaks b.browser.hardened (is_ours b.browser.settings.level_of_control));
            prefetch = inr (rw (r.touched.hardened, r.touched.prefetch_off) refl);
          })
      where
        settings :
            ((is_ours b.browser.settings.level_of_control ≡ true)
              ⊎ (is_ours b.browser.settings.level_of_control ≡ false))
            → ((restored_settings lower is_firefox set_value cleared
                  (some b.browser.settings)
                  c.browser.settings).value
                ≡ b.browser.settings.value)
              ⊎ ((is_ours b.browser.settings.level_of_control ≡ false)
                  × (restored_settings lower is_firefox set_value cleared
                        (some b.browser.settings)
                        c.browser.settings
                      ≡ cleared))
        settings (inl ours) = inl (rw ours (takes c.browser.settings b.browser.settings.value))
        settings (inr others) = inr (others, rw others refl)

        leaks : (x y : Bool) → ((true && (x || y)) ≡ x) ⊎ ((y ≡ true) × ((true && (x || y)) ≡ true))
        leaks true y = inl refl
        leaks false true = inr (refl, refl)
        leaks false false = inl refl

    IsRestored-Untouched :
        (held : Option Handler) (c : Client)
        → held ≡ b.handler
        → Untouched b c
        → IsRestored cleared b (on_failure lower is_firefox set_value cleared held c)
    unfolding on_failure
    IsRestored-Untouched held c same u =
        rw (on_failure, u.unhardened)
          (record {
            tunnel_down = u.tunnel_down;
            endpoints = refl;
            auth = refl;
            port = refl;
            proxied = u.proxied;
            handler = same;
            listeners = ap (λ x. x.listeners) u.browser;
            settings = inl (ap (λ x. x.settings.value) u.browser);
            leaks = inl (ap (λ x. x.hardened) u.browser);
            prefetch = inl (ap (λ x. x.prefetch_off) u.browser);
          })

    finish-Ends :
        (held : Option Handler) (r : Client × Checked WarrenExtensionErrorCode Endpoints)
        → held ≡ b.handler
        → ((s : ProxySettings) (v : ProxyValue) → (set_value s v).value ≡ v)
        → Ends IsUp (Failing b) r
        → Ends IsUp (IsRestored cleared b) (finish lower is_firefox set_value cleared held r)
    finish-Ends held (c, ok endpoints) same takes up = record {
      tunnel_up = up.tunnel_up;
      proxied = up.proxied;
      hardened = up.hardened;
      prefetch_off = up.prefetch_off;
    }
    finish-Ends held (c, fail e) same takes (inl u) = IsRestored-Untouched held c same u
    finish-Ends held (c, fail e) same takes (inr r) = IsRestored-Routing held c same takes r

  -- The flags of a connect that succeeds, and what one that fails restores.
  pub connect_settled :
      (run : ConnectRun) (c : Client)
      → IsNumbered c
      → run.hardening ≢ half_closes
      → c.connecting ≡ false
      → c.tunnel_up ≡ false
      → ((s : ProxySettings) (v : ProxyValue) → (set_value s v).value ≡ v)
      → Ends IsUp (IsRestored cleared c) (connect lower is_firefox set_value cleared run c)
  unfolding connect
  connect_settled run c numbered whole idle down takes =
      let begun : Client = start lower is_firefox set_value cleared c in
      let first : Untouched c begun = record {
        browser = refl;
        handler = refl;
        unhardened = refl;
        proxied = refl;
        tunnel_down = down;
        handlers_made = refl;
      } in
      Ends-else IsUp (IsRestored cleared c) (c.connecting || c.tunnel_up) _ _
        (neither c.connecting c.tunnel_up idle down)
        (finish-Ends c numbered c.handler
          (attempt lower is_firefox set_value cleared run c.handler begun) refl takes
          ((attempt_triple c numbered run c.handler whole).ends begun first))
