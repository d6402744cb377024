-- ===== src/Extension/Client/Passing.antt =====
-- The steps of a connect pass from stage to stage.
use warren_sdk_ts.Prelude.{
  inl, inr, refl, ap, List, Option, none, some, Bool, true, false, ◌≢◌, Bool-cases,
}
use warren_sdk_ts.Split.{Text, is_only, SplitTunnelConfig}
use warren_sdk_ts.Extension.Values.{ProxyValue, build_firefox_proxy_value}
use warren_sdk_ts.Extension.Routing.{ProxyAuth}
use warren_sdk_ts.Extension.Routing.Chromium.{ProxySettings}
use warren_sdk_ts.Extension.Client.State.{
  WarrenExtensionErrorCode, proxy_uncontrollable, uncaught, Endpoints, Client, Event,
}
use warren_sdk_ts.Extension.Client.Connect.{
  Pass, Hardening, closes, refuses, half_closes, set_hardened, is_closed, ConnectRun, modify, check,
  lift, register_firefox_on_request, apply_proxy, verify_routing, prepare, route, harden, set_proxy,
  set_chromium, wait, ◌>>◌,
}
use warren_sdk_ts.Extension.Client.Triples.{Triple, then_triple, modify_triple, check_triple}
use warren_sdk_ts.Extension.Client.Stages.{
  Untouched, Read, Closed, Ready, Routing, Failing, IsNumbered, open_port-Same, happens-Same,
  Ready-Routing, register-Routing, Read-Same, Closed-Same, Routing-Same,
}

module _ (b : Client) (numbered : IsNumbered b) where
  module _ (lower : Text → Text) (is_firefox : Bool)
      (set_value : ProxySettings → ProxyValue → ProxySettings) (cleared : ProxySettings) where
    read_check :
        (test : Client → Bool) (e : WarrenExtensionErrorCode)
        → Triple (Read b) (check test e) (Read b) (Failing b)
    read_check test e = check_triple test e (λ c r. inl r.untouched)

    read_wait :
        (events : List Event)
        → Triple (Read b) (wait lower is_firefox set_value cleared events) (Read b) (Failing b)
    read_wait events = modify_triple _ λ c r.
        Read-Same b numbered c _
          (happens-Same is_firefox set_value events c r.untouched.tunnel_down) r

    untouched_read :
        (c : Client)
        → Untouched b c
        → Read b (record c { before = some c.browser.settings; leaks_held = c.browser.hardened })
    untouched_read c u = record {
      untouched = record {
        browser = u.browser;
        handler = u.handler;
        unhardened = u.unhardened;
        proxied = u.proxied;
        tunnel_down = u.tunnel_down;
        handlers_made = u.handlers_made;
      };
      before = ap (λ x. some x.settings) u.browser;
      leaks_held = ap (λ x. x.hardened) u.browser;
    }

    pub prepare_triple :
        (run : ConnectRun)
        → Triple (Untouched b) (prepare lower is_firefox set_value cleared run) (Read b) (Failing b)
    unfolding prepare
    prepare_triple run = then_triple (check_triple _ _ (λ c u. inl u)) (
        then_triple (modify_triple _ untouched_read) (
          then_triple (read_wait run.at_check) (
            then_triple (read_check _ _) (
              then_triple (read_check _ _) (
                then_triple (read_check _ _) (
                  then_triple
                    (modify_triple _ λ c r.
                      Read-Same b numbered c _
                        (open_port-Same is_firefox set_value c r.untouched.tunnel_down) r)
                    (read_wait run.at_request)))))))

    read-Closed : (c : Client) → Read b c → Closed b (set_hardened c)
    read-Closed c r = record {
      before = r.before;
      leaks_held = r.leaks_held;
      hardened = refl;
      prefetch_off = refl;
      proxied = r.untouched.proxied;
      tunnel_down = r.untouched.tunnel_down;
      handler = r.untouched.handler;
      listeners = ap (λ x. x.listeners) r.untouched.browser;
      handlers_made = r.untouched.handlers_made;
    }

    Closed-Ready : (c : Client) → Closed b c → Ready b (record c { hardened = true })
    Closed-Ready c r = record {
      marked = refl;
      closed = record {
        before = r.before;
        leaks_held = r.leaks_held;
        hardened = r.hardened;
        prefetch_off = r.prefetch_off;
        proxied = r.proxied;
        tunnel_down = r.tunnel_down;
        handler = r.handler;
        listeners = r.listeners;
        handlers_made = r.handlers_made;
      };
    }

    Ready-holds :
        (endpoints : Endpoints) (auth : ProxyAuth) (c : Client)
        → Ready b c
        → Ready b (record c { endpoints = some endpoints; auth = some auth })
    Ready-holds endpoints auth c r = record {
      marked = r.marked;
      closed = record {
        before = r.closed.before;
        leaks_held = r.closed.leaks_held;
        hardened = r.closed.hardened;
        prefetch_off = r.closed.prefetch_off;
        proxied = r.closed.proxied;
        tunnel_down = r.closed.tunnel_down;
        handler = r.closed.handler;
        listeners = r.closed.listeners;
        handlers_made = r.closed.handlers_made;
      };
    }

    Routing-set :
        (v : ProxyValue) (c : Client)
        → Routing b c
        → Routing b (set_proxy lower is_firefox set_value cleared v c)
    Routing-set v c r = record {
      marked = r.marked;
      touched = record {
        before = r.touched.before;
        leaks_held = r.touched.leaks_held;
        hardened = r.touched.hardened;
        prefetch_off = r.touched.prefetch_off;
        proxied = r.touched.proxied;
        tunnel_down = r.touched.tunnel_down;
        listeners = r.touched.listeners;
      };
    }

    Routing-check :
        (test : Client → Bool) (e : WarrenExtensionErrorCode)
        → Triple (Routing b) (check test e) (Routing b) (Failing b)
    Routing-check test e = check_triple test e (λ c r. inr r)

    Routing-wait :
        (events : List Event)
        → Triple
            (Routing b)
            (wait lower is_firefox set_value cleared events)
            (Routing b)
            (Failing b)
    Routing-wait events = modify_triple _ λ c r.
        Routing-Same b numbered c _
          (happens-Same is_firefox set_value events c r.touched.tunnel_down) r

    chromium_triple :
        (http : Option Text) (split : SplitTunnelConfig)
        → Triple
            (Ready b)
            (set_chromium lower is_firefox set_value cleared http split)
            (Routing b)
            (Failing b)
    chromium_triple none split = record {
      ends = λ c r. unfold lift in inr (Ready-Routing b numbered c r);
    }
    chromium_triple (some http) split =
        modify_triple _ (λ c r. Routing-set _ c (Ready-Routing b numbered c r))

    only_triple :
        (endpoints : Endpoints) (split : SplitTunnelConfig)
        → Triple
            (Ready b)
            (modify (register_firefox_on_request endpoints.socks5 split))
            (Routing b)
            (Failing b)
    only_triple endpoints split =
        modify_triple _ (register-Routing b numbered endpoints.socks5 split)

    firefox_triple :
        (applies : Bool) (endpoints : Endpoints) (split : SplitTunnelConfig)
        → Triple
            (Ready b)
            (modify (register_firefox_on_request endpoints.socks5 split)
              >> (modify (
                    set_proxy lower is_firefox set_value cleared
                      (build_firefox_proxy_value endpoints.socks5 split))
                  >> check (λ _. applies) proxy_uncontrollable))
            (Routing b)
            (Failing b)
    firefox_triple applies endpoints split =
        then_triple {Q = Routing b}
          (modify_triple _ (register-Routing b numbered endpoints.socks5 split))
          (then_triple {Q = Routing b} (modify_triple _ (Routing-set _)) (Routing-check _ _))

    apply_proxy_triple :
        (applies : Bool) (endpoints : Endpoints) (split : SplitTunnelConfig)
        → Triple
            (Ready b)
            (apply_proxy lower is_firefox set_value cleared applies endpoints split)
            (Routing b)
            (Failing b)
    unfolding apply_proxy
    apply_proxy_triple applies endpoints split = record {
      ends = λ c r. elim (Bool-cases is_firefox) [
        | inr chromium ↦ rw chromium ((chromium_triple endpoints.http split).ends c r)
        | inl firefox ↦ elim (Bool-cases (is_only split.mode)) [
          | inl o ↦ rw (firefox, o) ((only_triple endpoints split).ends c r)
          | inr o ↦ rw (firefox, o) ((firefox_triple applies endpoints split).ends c r)
        ]
      ];
    }

    -- The leaks are closed before anything is routed; where they are not, nothing has been touched.
    harden_triple :
        {A : Type 0} {m : Pass A} {Q : Client → Type 0} (run : ConnectRun) (outcome : Hardening)
        → outcome ≢ half_closes
        → Triple (Closed b) m Q (Failing b)
        → Triple
            (Read b)
            (modify (harden outcome)
              >> (wait lower is_firefox set_value cleared run.at_hardening
                  >> (check (λ _. is_closed outcome) uncaught >> m)))
            Q
            (Failing b)
    harden_triple run closes whole m_triple =
        then_triple {Q = Closed b} (modify_triple _ read-Closed) (
          then_triple {Q = Closed b}
            (modify_triple _ λ c r.
              Closed-Same b numbered c _
                (happens-Same is_firefox set_value run.at_hardening c r.tunnel_down) r)
            (then_triple {Q = Closed b} passes m_triple))
      where
        passes : Triple (Closed b) (check (λ _. true) uncaught) (Closed b) (Failing b)
        passes = record { ends = λ c r. unfold check in r }
    harden_triple run refuses whole m_triple =
        then_triple {Q = Read b} (modify_triple _ (λ c r. r)) (
          then_triple {Q = Read b} (read_wait run.at_hardening)
            (then_triple {Q = Closed b} stops m_triple))
      where
        stops : Triple (Read b) (check (λ _. false) uncaught) (Closed b) (Failing b)
        stops = record { ends = λ c r. unfold check in inl r.untouched }
    harden_triple run half_closes whole m_triple = absurd (whole refl)

    pub route_triple :
        (run : ConnectRun) (endpoints : Endpoints) (auth : ProxyAuth)
        → run.hardening ≢ half_closes
        → Triple
            (Read b)
            (route lower is_firefox set_value cleared run endpoints auth)
            (Routing b)
            (Failing b)
    unfolding route verify_routing
    route_triple run endpoints auth whole = harden_triple run run.hardening whole (
        then_triple {Q = Ready b} (modify_triple _ Closed-Ready) (
          then_triple {Q = Ready b} (check_triple _ _ (λ c r. inr (Ready-Routing b numbered c r))) (
            then_triple {Q = Ready b} (modify_triple _ (Ready-holds endpoints auth)) (
              then_triple {Q = Routing b} (apply_proxy_triple run.applies endpoints run.split) (
                then_triple {Q = Routing b} (Routing-wait run.at_set) (
                  then_triple {Q = Routing b} (Routing-check _ _) (
                    then_triple {Q = Routing b} (Routing-wait run.at_verify)
                      (Routing-check _ _))))))))
