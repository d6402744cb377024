-- ===== src/Extension/Routing/Direct.antt =====
-- Which requests Firefox is told to send direct.
use warren_sdk_ts.Prelude.{
  ◌≡◌, ◌↔◌, inl, inr, refl, List, [], ◌∷◌, Option, none, some, Bool, true, false, Bool-cases,
  if◌then◌else◌, ap, sym, ◌∙◌, In,
}
use warren_sdk_ts.Split.{Text, equal, should_tunnel_request}
use warren_sdk_ts.Split.Rules.{equal_iff}
use warren_sdk_ts.Extension.Values.{IngressEndpoint, https, masque}
use warren_sdk_ts.Extension.Routing.{
  RoutingState, MultihopRoutingState, RoutingRecord, ingress, lockdown, multihop, ProxyAuth,
  Promised, resolved, rejected, FirefoxProxyInfo, direct, FirefoxSources, is_loopback_host,
  some_equal, is_exempt, firefox_proxy_info_for, answer_ingress, answer_multihop, answer_record,
  answer_stored, is_loopback_url, on_request,
}

-- One of the names is the host, in lower case.
abbrev pub IsNamed : (Text → Text) → Text → List Text → Type 0
IsNamed lower host names = (name : Text) × In name names × (lower name ≡ host)

module _ (lower : Text → Text) (host : Text) where
  some_equal-IsNamed :
      (names : List Text) → some_equal lower names host ≡ true → IsNamed lower host names
  some_equal-IsNamed [] h = absurd cc
  some_equal-IsNamed (name ∷ names) h = elim (Bool-cases (equal (lower name) host)) [
    | inl e ↦ (name, inl refl, (equal_iff (lower name) host).0 e)
    | inr e ↦
        let (later, place, same) = some_equal-IsNamed names (rw e at h) in (later, inr place, same)
  ]

  IsNamed-some_equal :
      (names : List Text) → IsNamed lower host names → some_equal lower names host ≡ true
  IsNamed-some_equal [] (name, place, same) = absurd place
  IsNamed-some_equal (name ∷ names) (n, inl e, same) =
      let e' = (equal_iff (lower name) host).1 (ap lower (sym e) ∙ same) in rw e' refl
  IsNamed-some_equal (name ∷ names) (n, inr place, same) =
      elim (Bool-cases (equal (lower name) host)) [
        | inl e ↦ rw e refl
        | inr e ↦ rw e (IsNamed-some_equal names (n, place, same))
      ]

  is_exempt_iff :
      (names : List Text) → (is_exempt lower names host ≡ true) ↔ IsNamed lower host names
  unfolding is_exempt
  is_exempt_iff names = (some_equal-IsNamed names, IsNamed-some_equal names)

module _ (lower : Text → Text) where
  -- A record lets a host, in lower case, go direct: a lockdown exempts it, or the split of a tunnel
  -- leaves it out.
  pub data Releases (sources : FirefoxSources) (host : Text) : RoutingRecord → Type 0 where
    exempt : (hosts : List Text) → IsNamed lower host hosts → Releases sources host (lockdown hosts)
    outside_multihop :
        (state : MultihopRoutingState)
        → should_tunnel_request lower (record { host = host; tab_id = sources.tab_id }) state.split
          ≡ false
        → Releases sources host (multihop state)
    outside_ingress :
        (state : RoutingState)
        → should_tunnel_request lower (record { host = host; tab_id = sources.tab_id }) state.split
          ≡ false
        → Releases sources host (ingress state)

  -- A request may go direct: it is for loopback, the store was read and holds no routing, or it holds one
  -- that lets the host go.
  pub data MayGoDirect (sources : FirefoxSources) : Type 0 where
    loopback :
        (host : Text)
        → sources.hostname ≡ some host
        → is_loopback_host lower host ≡ true
        → MayGoDirect sources
    unrouted : sources.stored ≡ resolved none → MayGoDirect sources
    released :
        (host : Text) (state : RoutingRecord)
        → sources.hostname ≡ some host
        → sources.stored ≡ resolved (some state)
        → Releases sources (lower host) state
        → MayGoDirect sources

module _ (lower btoa : Text → Text) where
  abbrev went_direct : Promised (List FirefoxProxyInfo)
  went_direct = resolved (direct ∷ [])

  same_branches : (b : Bool) → (if b then went_direct else went_direct) ≡ went_direct
  same_branches true = refl
  same_branches false = refl

  no_direct_ingress :
      (endpoint : IngressEndpoint) (credential : Promised (Option Text))
      → answer_ingress lower btoa endpoint credential ≡ went_direct
      → ⊥
  unfolding firefox_proxy_info_for
  no_direct_ingress endpoint rejected h = cc
  no_direct_ingress (https host port) (resolved c) h = cc
  no_direct_ingress (masque host port template) (resolved c) h = cc

  no_direct_multihop :
      (socks5 : Text) (auth : Option ProxyAuth)
      → resolved (answer_multihop lower btoa socks5 auth) ≡ went_direct
      → ⊥
  no_direct_multihop socks5 none h = cc
  no_direct_multihop socks5 (some auth) h = cc

  module _ (sources : FirefoxSources) where
    direct-Releases :
        (host : Text) (state : RoutingRecord)
        → answer_record lower btoa sources host state ≡ went_direct
        → Releases lower sources host state
    unfolding answer_record
    direct-Releases host (lockdown hosts) h = elim (Bool-cases (is_exempt lower hosts host)) [
      | inl e ↦ exempt hosts ((is_exempt_iff lower host hosts).0 e)
      | inr e ↦ absurd (let k = rw (answer_record, e) at h in cc)
    ]
    direct-Releases host (multihop state) h =
        elim (Bool-cases (
          should_tunnel_request lower (record { host = host; tab_id = sources.tab_id })
            state.split)) [
              | inl e ↦ absurd (
                  no_direct_multihop state.socks5 (sources.for_listener state.socks5)
                    (rw (answer_record, e) at h))
              | inr e ↦ outside_multihop state e
            ]
    direct-Releases host (ingress state) h =
        elim (Bool-cases (
          should_tunnel_request lower (record { host = host; tab_id = sources.tab_id })
            state.split)) [
              | inl e ↦
                  absurd (
                    no_direct_ingress state.endpoint sources.credential
                      (rw (answer_record, e) at h))
              | inr e ↦ outside_ingress state e
            ]

    Releases-direct :
        (host : Text) (state : RoutingRecord)
        → Releases lower sources host state
        → answer_record lower btoa sources host state ≡ went_direct
    unfolding answer_record
    Releases-direct host state (exempt hosts e) =
        let e' = (is_exempt_iff lower host hosts).1 e in rw e' refl
    Releases-direct host state (outside_multihop s e) = rw e refl
    Releases-direct host state (outside_ingress s e) = rw e refl

    direct-MayGoDirect : on_request lower btoa sources ≡ went_direct → MayGoDirect lower sources
    unfolding on_request
    direct-MayGoDirect h = go sources.hostname sources.stored refl refl h
      where
        go :
            (name : Option Text) (stored : Promised (Option RoutingRecord))
            → sources.hostname ≡ name
            → sources.stored ≡ stored
            → (if is_loopback_url lower btoa name
                then went_direct
                else answer_stored lower btoa sources name stored)
              ≡ went_direct
            → MayGoDirect lower sources
        go none rejected en es k = absurd cc
        go none (resolved none) en es k = unrouted es
        go none (resolved (some state)) en es k = absurd cc
        go (some host) stored en es k = elim (Bool-cases (is_loopback_host lower host)) [
          | inl e ↦ loopback host en e
          | inr e ↦ from_store stored es (rw (on_request, e) at k)
        ]
          where
            from_store :
                (read : Promised (Option RoutingRecord))
                → sources.stored ≡ read
                → answer_stored lower btoa sources (some host) read ≡ went_direct
                → MayGoDirect lower sources
            from_store rejected r j = absurd cc
            from_store (resolved none) r j = unrouted r
            from_store (resolved (some state)) r j =
                released host state en r (direct-Releases (lower host) state j)

    MayGoDirect-direct : MayGoDirect lower sources → on_request lower btoa sources ≡ went_direct
    unfolding on_request
    MayGoDirect-direct (loopback host en e) = rw (en, e) refl
    MayGoDirect-direct (unrouted es) =
        rw es (same_branches (is_loopback_url lower btoa sources.hostname))
    MayGoDirect-direct (released host state en es r) =
        rw (en, es, Releases-direct (lower host) state r)
          (same_branches (is_loopback_host lower host))

    -- Firefox is told to send a request direct exactly when it is for loopback, or the store was read and
    -- holds no routing, or the record exempts the request's host from a lockdown or leaves the request
    -- out of its tunnel's split; in particular never on a store that cannot be read, on a URL that does
    -- not parse under a routing, or for want of credentials.
    pub on_request-MayGoDirect :
        (on_request lower btoa sources ≡ resolved (direct ∷ [])) ↔ MayGoDirect lower sources
    on_request-MayGoDirect = (direct-MayGoDirect, MayGoDirect-direct)
