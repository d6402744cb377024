-- ===== src/Extension/Client/Stages.antt =====
-- What holds at each stage of a connect.
use warren_sdk_ts.Prelude.{
  ℕ, ◌<◌, ◌≡◌, ◌⊎◌, inl, inr, refl, ap, ◌∙◌, List, [], ◌∷◌, ◌++◌, Option, none, some, Bool, true,
  false, arith, Bool-cases, All, ◌==◌, ==_iff,
}
use warren_sdk_ts.Split.{Text, SplitTunnelConfig}
use warren_sdk_ts.Extension.Values.{ProxyValue}
use warren_sdk_ts.Extension.Routing.Chromium.{ProxySettings}
use warren_sdk_ts.Extension.Client.State.{
  Handler, Client, remove_listener, remove_handler, open_port, question_begins, question_ends,
  on_disconnect, Event, host_lost, question_begun, question_ended, happen, happens,
}
use warren_sdk_ts.Extension.Client.Connect.{register_firefox_on_request}

-- What events leave alone while no tunnel is up.
pub record Same (c d : Client) : Type 0 where
  pub browser : d.browser ≡ c.browser
  pub handler : d.handler ≡ c.handler
  pub before : d.before ≡ c.before
  pub leaks_held : d.leaks_held ≡ c.leaks_held
  pub hardened : d.hardened ≡ c.hardened
  pub proxied : d.proxied ≡ c.proxied
  pub tunnel_down : d.tunnel_up ≡ false
  pub handlers_made : d.handlers_made ≡ c.handlers_made

module _ (is_firefox : Bool) (set_value : ProxySettings → ProxyValue → ProxySettings) where
  pub open_port-Same : (c : Client) → c.tunnel_up ≡ false → Same c (open_port c)
  unfolding open_port
  open_port-Same c h = ground arith

  happen-Same :
      (e : Event) (c : Client) → c.tunnel_up ≡ false → Same c (happen is_firefox set_value e c)
  unfolding on_disconnect question_begins question_ends open_port
  happen-Same host_lost c h = ground arith
  happen-Same question_begun c h = ground arith
  happen-Same question_ended c h = ground arith

  Same-trans : (c d e : Client) → Same c d → Same d e → Same c e
  Same-trans c d e s t = record {
    browser = t.browser ∙ s.browser;
    handler = t.handler ∙ s.handler;
    before = t.before ∙ s.before;
    leaks_held = t.leaks_held ∙ s.leaks_held;
    hardened = t.hardened ∙ s.hardened;
    proxied = t.proxied ∙ s.proxied;
    tunnel_down = t.tunnel_down;
    handlers_made = t.handlers_made ∙ s.handlers_made;
  }

  pub happens-Same :
      (events : List Event) (c : Client)
      → c.tunnel_up ≡ false
      → Same c (happens is_firefox set_value events c)
  unfolding happens
  happens-Same [] c h = record {
    browser = refl;
    handler = refl;
    before = refl;
    leaks_held = refl;
    hardened = refl;
    proxied = refl;
    tunnel_down = h;
    handlers_made = refl;
  }
  happens-Same (e ∷ events) c h =
      let s = happen-Same e c h in
      Same-trans c (happen is_firefox set_value e c) _ s
        (happens-Same events (happen is_firefox set_value e c) s.tunnel_down)

-- A connect from `b` that has touched nothing yet.
pub record Untouched (b c : Client) : Type 0 where
  pub browser : c.browser ≡ b.browser
  pub handler : c.handler ≡ none
  pub unhardened : c.hardened ≡ false
  pub proxied : c.proxied ≡ b.proxied
  pub tunnel_down : c.tunnel_up ≡ false
  pub handlers_made : c.handlers_made ≡ b.handlers_made

-- It has read the settings and the leak setting.
pub record Read (b c : Client) : Type 0 where
  pub untouched : Untouched b c
  pub before : c.before ≡ some b.browser.settings
  pub leaks_held : c.leaks_held ≡ b.browser.hardened

-- The leaks are closed, and the handler of this connect, if any, stands behind the others.
pub record Touched (b c : Client) : Type 0 where
  pub before : c.before ≡ some b.browser.settings
  pub leaks_held : c.leaks_held ≡ b.browser.hardened
  pub hardened : c.browser.hardened ≡ true
  pub prefetch_off : c.browser.prefetch_off ≡ true
  pub proxied : c.proxied ≡ b.proxied
  pub tunnel_down : c.tunnel_up ≡ false
  pub listeners : remove_handler c.handler c.browser.listeners ≡ b.browser.listeners

-- Closed, and no handler registered yet.
pub record Closed (b c : Client) : Type 0 where
  pub before : c.before ≡ some b.browser.settings
  pub leaks_held : c.leaks_held ≡ b.browser.hardened
  pub hardened : c.browser.hardened ≡ true
  pub prefetch_off : c.browser.prefetch_off ≡ true
  pub proxied : c.proxied ≡ b.proxied
  pub tunnel_down : c.tunnel_up ≡ false
  pub handler : c.handler ≡ none
  pub listeners : c.browser.listeners ≡ b.browser.listeners
  pub handlers_made : c.handlers_made ≡ b.handlers_made

pub record Routing (b c : Client) : Type 0 where
  pub marked : c.hardened ≡ true
  pub touched : Touched b c

pub record Ready (b c : Client) : Type 0 where
  pub marked : c.hardened ≡ true
  pub closed : Closed b c

-- Where a connect may fail.
abbrev pub Failing : Client → Client → Type 0
Failing b c = Untouched b c ⊎ Routing b c

abbrev pub IsBelow : ℕ → Option Handler → Type 0
IsBelow n none = Unit {0}
IsBelow n (some h) = h.id < n

-- The handlers were numbered before the next one.
abbrev pub IsNumbered : Client → Type 0
IsNumbered c =
    All (λ h. h.id < c.handlers_made) c.browser.listeners × IsBelow c.handlers_made c.handler

remove-fresh :
    (id : ℕ) (hs : List Handler)
    → All (λ h. h.id < id) hs
    → (new : Handler) → new.id ≡ id
    → remove_listener id (hs ++ (new ∷ [])) ≡ hs
remove-fresh id [] tt new e = rw ((==_iff new.id id).1 e) refl
remove-fresh id (h ∷ hs) (older, rest) new e = elim (Bool-cases (h.id == id)) [
  | inl same ↦ absurd (let k = (==_iff h.id id).0 same in omega arith)
  | inr other ↦ rw (other, remove-fresh id hs rest new e) refl
]

module _ (b : Client) (numbered : IsNumbered b) where
  pub Ready-Routing : (c : Client) → Ready b c → Routing b c
  Ready-Routing c r = record {
    marked = r.marked;
    touched = record {
      before = r.closed.before;
      leaks_held = r.closed.leaks_held;
      hardened = r.closed.hardened;
      prefetch_off = r.closed.prefetch_off;
      proxied = r.closed.proxied;
      tunnel_down = r.closed.tunnel_down;
      listeners = rw r.closed.handler r.closed.listeners;
    };
  }

  pub register-Routing :
      (socks5 : Text) (split : SplitTunnelConfig) (c : Client)
      → Ready b c
      → Routing b (register_firefox_on_request socks5 split c)
  unfolding register_firefox_on_request
  register-Routing socks5 split c r = record {
    marked = r.marked;
    touched = record {
      before = r.closed.before;
      leaks_held = r.closed.leaks_held;
      hardened = r.closed.hardened;
      prefetch_off = r.closed.prefetch_off;
      proxied = r.closed.proxied;
      tunnel_down = r.closed.tunnel_down;
      listeners =
          rw (r.closed.listeners, r.closed.handlers_made)
            (remove-fresh b.handlers_made b.browser.listeners numbered.0 _ refl);
    };
  }

  pub Untouched-Same : (c d : Client) → Same c d → Untouched b c → Untouched b d
  Untouched-Same c d s u = record {
    browser = s.browser ∙ u.browser;
    handler = s.handler ∙ u.handler;
    unhardened = s.hardened ∙ u.unhardened;
    proxied = s.proxied ∙ u.proxied;
    tunnel_down = s.tunnel_down;
    handlers_made = s.handlers_made ∙ u.handlers_made;
  }

  pub Read-Same : (c d : Client) → Same c d → Read b c → Read b d
  Read-Same c d s r = record {
    untouched = Untouched-Same c d s r.untouched;
    before = s.before ∙ r.before;
    leaks_held = s.leaks_held ∙ r.leaks_held;
  }

  pub Closed-Same : (c d : Client) → Same c d → Closed b c → Closed b d
  Closed-Same c d s r = record {
    before = s.before ∙ r.before;
    leaks_held = s.leaks_held ∙ r.leaks_held;
    hardened = ap (λ x. x.hardened) s.browser ∙ r.hardened;
    prefetch_off = ap (λ x. x.prefetch_off) s.browser ∙ r.prefetch_off;
    proxied = s.proxied ∙ r.proxied;
    tunnel_down = s.tunnel_down;
    handler = s.handler ∙ r.handler;
    listeners = ap (λ x. x.listeners) s.browser ∙ r.listeners;
    handlers_made = s.handlers_made ∙ r.handlers_made;
  }

  pub Routing-Same : (c d : Client) → Same c d → Routing b c → Routing b d
  Routing-Same c d s r = record {
    marked = s.hardened ∙ r.marked;
    touched = record {
      before = s.before ∙ r.touched.before;
      leaks_held = s.leaks_held ∙ r.touched.leaks_held;
      hardened = ap (λ x. x.hardened) s.browser ∙ r.touched.hardened;
      prefetch_off = ap (λ x. x.prefetch_off) s.browser ∙ r.touched.prefetch_off;
      proxied = s.proxied ∙ r.touched.proxied;
      tunnel_down = s.tunnel_down;
      listeners = rw (s.handler, s.browser) r.touched.listeners;
    };
  }
