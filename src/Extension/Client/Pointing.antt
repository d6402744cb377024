-- ===== src/Extension/Client/Pointing.antt =====
-- A connect that has succeeded points the browser at the listeners of its host.
use warren_sdk_ts.Prelude.{
  ℕ, ◌≡◌, ◌≢◌, ◌⊎◌, inl, inr, refl, sym, ap, ◌∙◌, List, [], ◌∷◌, ◌++◌, Option, none, some, Bool,
  true, false, ◌==◌, ==_iff, Bool-cases, In, not, if◌then◌else◌,
}
use warren_sdk_ts.Discovery.Platform.{ok, fail}
use warren_sdk_ts.Split.{Text, is_only, SplitTunnelConfig}
use warren_sdk_ts.Extension.Values.{
  ProxyValue, build_chromium_proxy_value, build_firefox_proxy_value,
}
use warren_sdk_ts.Extension.Routing.{ProxyAuth}
use warren_sdk_ts.Extension.Routing.Chromium.{ProxySettings}
use warren_sdk_ts.Extension.Client.State.{
  WarrenExtensionErrorCode, proxy_uncontrollable, Endpoints, Handler, Client, remove_listener,
  open_port, Event, happens,
}
use warren_sdk_ts.Extension.Client.Connect.{
  Hardening, closes, refuses, half_closes, harden, ConnectRun, ◌>>◌, modify, check, lift,
  register_firefox_on_request, set_chromium, set_proxy, apply_proxy, verify_routing, wait, prepare,
  route,
}
use warren_sdk_ts.Extension.Client.Triples.{Ends, Triple, then_triple, modify_triple, check_triple}
use warren_sdk_ts.Extension.Client.Stages.{Same, happens-Same, open_port-Same}
use warren_sdk_ts.Extension.Client.Waiting.{
  IsUnasked, happens-StaysLost, happens-connecting, open_port-connecting,
}

abbrev pub Any : Client → Type 0
Any c = Unit {0}

In-last : {A : Type 0} (x : A) (xs : List A) → In x (xs ++ (x ∷ []))
In-last x [] = inl refl
In-last x (y ∷ ys) = inr (In-last x ys)

pub In-remove_listener :
    (id : ℕ) (h : Handler) (hs : List Handler) → id ≢ h.id → In h hs → In h (remove_listener id hs)
In-remove_listener id h [] other i = absurd i
In-remove_listener id h (k ∷ hs) other i = elim (Bool-cases (k.id == id)) [
  | inl e ↦ rw e (elim i [
    | inl q ↦ absurd (other (sym (ap (λ x. x.id) q ∙ (==_iff k.id id).0 e)))
    | inr later ↦ In-remove_listener id h hs other later
  ])
  | inr e ↦
      rw e (elim i [ inl q ↦ inl q | inr later ↦ inr (In-remove_listener id h hs other later) ])
]

-- The browser is pointed at a host's listeners with a split: on Firefox a handler of the client's stands
-- among the browser's, and Chromium's settings name the HTTP listener.
pub data PointsAt (lower : Text → Text) (is_firefox : Bool) (e : Endpoints)
    (split : SplitTunnelConfig) (c : Client) : Type 0 where
  by_handler :
      (h : Handler)
      → is_firefox ≡ true
      → c.handler ≡ some h
      → In h c.browser.listeners
      → h.socks5 ≡ e.socks5
      → h.split ≡ split
      → PointsAt lower is_firefox e split c
  by_settings :
      (http : Text)
      → is_firefox ≡ false
      → e.http ≡ some http
      → c.browser.settings.value ≡ build_chromium_proxy_value lower http split
      → PointsAt lower is_firefox e split c

module _ (lower : Text → Text) (is_firefox : Bool)
    (set_value : ProxySettings → ProxyValue → ProxySettings) (cleared : ProxySettings) where
  -- A connect whose next handler has the number `n`, before it routes.
  pub record Begun (n : ℕ) (c : Client) : Type 0 where
    pub connecting : c.connecting ≡ true
    pub tunnel_down : c.tunnel_up ≡ false
    pub next : c.handlers_made ≡ n
    pub handler : c.handler ≡ none

  Begun-happens :
      (n : ℕ) (events : List Event) (c : Client)
      → Begun n c
      → Begun n (happens is_firefox set_value events c)
  Begun-happens n events c q =
      let s = happens-Same is_firefox set_value events c q.tunnel_down in
      record {
        connecting = happens-connecting is_firefox set_value events c ∙ q.connecting;
        tunnel_down = s.tunnel_down;
        next = s.handlers_made ∙ q.next;
        handler = s.handler ∙ q.handler;
      }

  Begun-wait :
      (n : ℕ) (events : List Event)
      → Triple (Begun n) (wait lower is_firefox set_value cleared events) (Begun n) Any
  Begun-wait n events = modify_triple _ (Begun-happens n events)

  Begun-check :
      (n : ℕ) (test : Client → Bool) (e : WarrenExtensionErrorCode)
      → Triple (Begun n) (check test e) (Begun n) Any
  Begun-check n test e = check_triple test e (λ c q. tt)

  Begun-open_port : (n : ℕ) (c : Client) → Begun n c → Begun n (open_port c)
  Begun-open_port n c q =
      let s = open_port-Same is_firefox set_value c q.tunnel_down in
      record {
        connecting = open_port-connecting c ∙ q.connecting;
        tunnel_down = s.tunnel_down;
        next = s.handlers_made ∙ q.next;
        handler = s.handler ∙ q.handler;
      }

  pub prepare-Begun :
      (n : ℕ) (run : ConnectRun)
      → Triple (Begun n) (prepare lower is_firefox set_value cleared run) (Begun n) Any
  unfolding prepare
  prepare-Begun n run = then_triple (Begun-check n _ _) (
      then_triple {Q = Begun n} (modify_triple _ read) (
        then_triple (Begun-wait n run.at_check) (
          then_triple (Begun-check n _ _) (
            then_triple (Begun-check n _ _) (
              then_triple (Begun-check n _ _) (
                then_triple (modify_triple open_port (Begun-open_port n))
                  (Begun-wait n run.at_request)))))))
    where
      read :
          (c : Client)
          → Begun n c
          → Begun n (record c { before = some c.browser.settings; leaks_held = c.browser.hardened })
      read c q = record {
        connecting = q.connecting;
        tunnel_down = q.tunnel_down;
        next = q.next;
        handler = q.handler;
      }

  module _ (n : ℕ) (e : Endpoints) (auth : ProxyAuth) (split : SplitTunnelConfig) where
    -- The credentials are there unless the host has been lost.
    pub record Knows (c : Client) : Type 0 where
      pub connecting : c.connecting ≡ true
      pub tunnel_down : c.tunnel_up ≡ false
      pub endpoints : c.endpoints ≡ some e
      pub credentials : (c.port_dead ≡ true) ⊎ (c.auth ≡ some auth)

    -- With the browser pointed at the listeners, by a handler of the number `n` if by one
    pub record Points (c : Client) : Type 0 where
      pub knows : Knows c
      pub points : PointsAt lower is_firefox e split c
      pub number : (h : Handler) → c.handler ≡ some h → h.id ≡ n

    Knows-happens :
        (events : List Event) (c : Client)
        → IsUnasked events
        → Knows c
        → Knows (happens is_firefox set_value events c)
    Knows-happens events c quiet k =
        let s = happens-StaysLost is_firefox set_value events c k.connecting quiet in
        record {
          connecting = s.waited.connecting ∙ k.connecting;
          tunnel_down = (happens-Same is_firefox set_value events c k.tunnel_down).tunnel_down;
          endpoints = s.waited.endpoints ∙ k.endpoints;
          credentials = elim s.auth [
            | inl lost ↦ inl lost
            | inr held ↦ elim k.credentials [
              | inl lost ↦ inl (held.1 ∙ lost)
              | inr given ↦ inr (held.0 ∙ given)
            ]
          ];
        }

    PointsAt-Same :
        (c d : Client)
        → Same c d
        → PointsAt lower is_firefox e split c
        → PointsAt lower is_firefox e split d
    PointsAt-Same c d s (by_handler h fox own listed socks same) =
        by_handler h fox (s.handler ∙ own) (rw s.browser listed) socks same
    PointsAt-Same c d s (by_settings http chromium listens value) =
        by_settings http chromium listens (ap (λ b. b.settings.value) s.browser ∙ value)

    Points-wait :
        (events : List Event)
        → IsUnasked events
        → Triple Points (wait lower is_firefox set_value cleared events) Points Any
    Points-wait events quiet = modify_triple _ λ c p.
        let s = happens-Same is_firefox set_value events c p.knows.tunnel_down in
        record {
          knows = Knows-happens events c quiet p.knows;
          points = PointsAt-Same c _ s p.points;
          number = λ h own. p.number h (sym s.handler ∙ own);
        }

    Points-check :
        (test : Client → Bool) (x : WarrenExtensionErrorCode)
        → Triple Points (check test x) Points Any
    Points-check test x = check_triple test x (λ c p. tt)

    abbrev Prepared : Client → Type 0
    Prepared c = Knows c × (c.handlers_made ≡ n) × (c.handler ≡ none)

    registered :
        (c : Client)
        → is_firefox ≡ true
        → Prepared c
        → Points (register_firefox_on_request e.socks5 split c)
    unfolding register_firefox_on_request
    registered c fox (k, next, bare) = record {
      knows = record {
        connecting = k.connecting;
        tunnel_down = k.tunnel_down;
        endpoints = k.endpoints;
        credentials = k.credentials;
      };
      points = by_handler _ fox refl (In-last _ c.browser.listeners) refl refl;
      number = λ h own. let same = some-injective _ h own in ap (λ x. x.id) (sym same) ∙ next;
    }
      where
        some-injective : (g h : Handler) → some g ≡ some h → g ≡ h
        some-injective g h q = cc

    set_firefox :
        (v : ProxyValue) (c : Client)
        → is_firefox ≡ true
        → Points c
        → Points (set_proxy lower is_firefox set_value cleared v c)
    set_firefox v c fox p = record {
      knows = record {
        connecting = p.knows.connecting;
        tunnel_down = p.knows.tunnel_down;
        endpoints = p.knows.endpoints;
        credentials = p.knows.credentials;
      };
      points = go p.points;
      number = p.number;
    }
      where
        go :
            PointsAt lower is_firefox e split c
            → PointsAt lower is_firefox e split (set_proxy lower is_firefox set_value cleared v c)
        go (by_handler h f own listed socks same) = by_handler h f own listed socks same
        go (by_settings http chromium listens value) = absurd (let f = fox in cc)

    module _ (takes : (s : ProxySettings) (v : ProxyValue) → (set_value s v).value ≡ v) where
      set_chromium-Points :
          (http : Option Text)
          → is_firefox ≡ false
          → e.http ≡ http
          → Triple Prepared (set_chromium lower is_firefox set_value cleared http split) Points Any
      set_chromium-Points none chromium listens = record { ends = λ c p. unfold lift in tt }
      set_chromium-Points (some http) chromium listens = modify_triple _ λ c (k, next, bare).
          record {
            knows = record {
              connecting = k.connecting;
              tunnel_down = k.tunnel_down;
              endpoints = k.endpoints;
              credentials = k.credentials;
            };
            points = by_settings http chromium listens (takes c.browser.settings _);
            number = λ h own. absurd (let clash : none ≡ some h = sym bare ∙ own in cc);
          }

      apply_proxy-Points :
          (applies : Bool)
          → Triple Prepared
              (apply_proxy lower is_firefox set_value cleared applies e split)
              Points
              Any
      unfolding apply_proxy
      apply_proxy-Points applies = record {
        ends = λ c p. route_by c p is_firefox refl (is_only split.mode);
      }
        where
          only :
              is_firefox ≡ true
              → Triple Prepared (modify (register_firefox_on_request e.socks5 split)) Points Any
          only fox = modify_triple _ (λ c p. registered c fox p)

          settings :
              is_firefox ≡ true
              → Triple Prepared
                  (modify (register_firefox_on_request e.socks5 split)
                    >> (modify (
                          set_proxy lower is_firefox set_value cleared
                            (build_firefox_proxy_value e.socks5 split))
                        >> check (λ _. applies) proxy_uncontrollable))
                  Points
                  Any
          settings fox = then_triple {Q = Points} (modify_triple _ (λ c p. registered c fox p)) (
              then_triple {Q = Points} (modify_triple _ (λ c p. set_firefox _ c fox p))
                (Points-check _ _))

          route_by :
              (c : Client)
              → Prepared c
              → (b : Bool) → is_firefox ≡ b
              → (o : Bool)
              → Ends Points Any (
                  if b
                  then (if o
                        then modify (register_firefox_on_request e.socks5 split)
                        else (modify (register_firefox_on_request e.socks5 split)
                            >> (modify (
                                  set_proxy lower is_firefox set_value cleared
                                    (build_firefox_proxy_value e.socks5 split))
                                >> check (λ _. applies) proxy_uncontrollable)))
                      c
                  else set_chromium lower is_firefox set_value cleared e.http split c)
          route_by c p true fox true = (only fox).ends c p
          route_by c p true fox false = (settings fox).ends c p
          route_by c p false chromium o = (set_chromium-Points e.http chromium refl).ends c p

      abbrev pub Alive : Client → Type 0
      Alive c = Points c × (c.port_dead ≡ false)

      Alive-check :
          (x : WarrenExtensionErrorCode) → Triple Points (check (λ c. not c.port_dead) x) Alive Any
      unfolding check
      Alive-check x = record { ends = λ c p. go c p c.port_dead refl }
        where
          go :
              (c : Client)
              → Points c
              → (b : Bool) → c.port_dead ≡ b
              → Ends {A = Unit {0}} Alive Any (c, if not b then ok tt else fail x)
          go c p true dead = tt
          go c p false alive = (p, alive)

      pub route_points :
          (run : ConnectRun)
          → run.split ≡ split
          → IsUnasked run.at_set
          → IsUnasked run.at_verify
          → Triple (Begun n) (route lower is_firefox set_value cleared run e auth) Alive Any
      unfolding route verify_routing
      route_points run same quiet_set quiet_verify =
          then_triple {Q = Begun n} (modify_triple _ (hardened run.hardening)) (
            then_triple (Begun-wait n run.at_hardening) (
              then_triple (Begun-check n _ _) (
                then_triple {Q = Begun n} (modify_triple _ marked) (
                  then_triple (Begun-check n _ _) (
                    then_triple {Q = Prepared} (modify_triple _ held) (
                      then_triple (rw same (apply_proxy-Points run.applies)) (
                        then_triple (Points-wait run.at_set quiet_set) (
                          then_triple (Points-check _ _) (
                            then_triple (Points-wait run.at_verify quiet_verify)
                              (Alive-check _))))))))))
        where
          hardened : (o : Hardening) (c : Client) → Begun n c → Begun n (harden o c)
          hardened closes c q = record {
            connecting = q.connecting;
            tunnel_down = q.tunnel_down;
            next = q.next;
            handler = q.handler;
          }
          hardened half_closes c q = record {
            connecting = q.connecting;
            tunnel_down = q.tunnel_down;
            next = q.next;
            handler = q.handler;
          }
          hardened refuses c q = q

          marked : (c : Client) → Begun n c → Begun n (record c { hardened = true })
          marked c q = record {
            connecting = q.connecting;
            tunnel_down = q.tunnel_down;
            next = q.next;
            handler = q.handler;
          }

          held :
              (c : Client)
              → Begun n c
              → Prepared (record c { endpoints = some e; auth = some auth })
          held c q = (
            record {
              connecting = q.connecting;
              tunnel_down = q.tunnel_down;
              endpoints = refl;
              credentials = inr refl;
            },
            q.next,
            q.handler,
          )
