-- ===== src/Extension/Routing/Auth.antt =====
-- Who gets credentials from the Chromium listener, and how often.
use warren_sdk_ts.Prelude.{
  ℕ, ◌≡◌, inl, inr, refl, ap, List, Option, none, some, Bool, true, false, Bool-cases,
  if◌then◌else◌, ◌==◌, arith,
}
use warren_sdk_ts.Split.{Text, equal}
use warren_sdk_ts.Split.Rules.{equal_iff}
use warren_sdk_ts.Extension.Values.{host_of, port_of}
use warren_sdk_ts.Extension.Routing.{
  RoutingState, RoutingRecord, ingress, lockdown, multihop, ProxyAuth, Promised, resolved, rejected,
  credential_username, is_loopback_host, Challenger, AuthChallenge, ProxyAuthSources, ignored,
  credentials, holds, remember, address_of, is_ingress, ingress_auth, credential_for,
  on_auth_required, local_auth, ingress_password, respond, answer,
}

module _ (lower : Text → Text) (show : ℕ → Text) where
  is_ingress-names :
      (state : RoutingState) (c : Challenger)
      → is_ingress lower show state c ≡ true
      → (lower (host_of state.endpoint) ≡ lower c.host) × (port_of state.endpoint ≡ c.port)
  unfolding is_ingress
  is_ingress-names state c h =
      let (host, port) : (equal (lower (host_of state.endpoint)) (lower c.host) ≡ true)
          × ((port_of state.endpoint == c.port) ≡ true) =
        ground arith in
      ((equal_iff (lower (host_of state.endpoint)) (lower c.host)).0 host, ground arith)

  -- Credentials that a challenger may have: a loopback listener its own session's, the ingress that the
  -- routing record names the browser-proxy credential.
  pub data Owns (sources : ProxyAuthSources) (c : Challenger) (auth : ProxyAuth) : Type 0 where
    listener :
        (f : Text → Option ProxyAuth)
        → is_loopback_host lower c.host ≡ true
        → sources.for_listener ≡ some f
        → f (address_of lower show c) ≡ some auth
        → Owns sources c auth
    named_ingress :
        (state : RoutingState) (credential : Text)
        → is_loopback_host lower c.host ≡ false
        → sources.ingress ≡ some (resolved (some (ingress state)), resolved (some credential))
        → lower (host_of state.endpoint) ≡ lower c.host
        → port_of state.endpoint ≡ c.port
        → auth ≡ record { username = credential_username; password = credential }
        → Owns sources c auth

  module _ (sources : ProxyAuthSources) (c : Challenger) (auth : ProxyAuth) where
    local-Owns :
        (o : Option (Text → Option ProxyAuth))
        → is_loopback_host lower c.host ≡ true
        → sources.for_listener ≡ o
        → local_auth lower show o (address_of lower show c) ≡ some auth
        → Owns sources c auth
    local-Owns none loop e h = absurd cc
    local-Owns (some f) loop e h = listener f loop e h

    ingress-Owns :
        (o : Option (Promised (Option RoutingRecord) × Promised (Option Text)))
        → is_loopback_host lower c.host ≡ false
        → sources.ingress ≡ o
        → ingress_auth lower show c o ≡ resolved (some auth)
        → Owns sources c auth
    unfolding ingress_auth
    ingress-Owns none loop e h = absurd cc
    ingress-Owns (some (rejected, credential)) loop e h = absurd cc
    ingress-Owns (some (resolved none, credential)) loop e h = absurd cc
    ingress-Owns (some (resolved (some (lockdown hosts)), credential)) loop e h = absurd cc
    ingress-Owns (some (resolved (some (multihop state)), credential)) loop e h = absurd cc
    ingress-Owns (some (resolved (some (ingress state)), credential)) loop e h =
        elim (Bool-cases (is_ingress lower show state c)) [
          | inl same ↦ password credential e same (rw (ingress_auth, same) at h)
          | inr other ↦ absurd (let k = rw (ingress_auth, other) at h in cc)
        ]
      where
        password :
            (q : Promised (Option Text))
            → sources.ingress ≡ some (resolved (some (ingress state)), q)
            → is_ingress lower show state c ≡ true
            → ingress_password lower show q ≡ resolved (some auth)
            → Owns sources c auth
        password rejected e same k = absurd cc
        password (resolved none) e same k = absurd cc
        password (resolved (some credential)) e same k =
            let (host, port) = is_ingress-names state c same in
            named_ingress state credential loop e host port cc

    credential_for-Owns :
        credential_for lower show sources c ≡ resolved (some auth) → Owns sources c auth
    unfolding credential_for
    credential_for-Owns h = elim (Bool-cases (is_loopback_host lower c.host)) [
      | inl loop ↦
          local-Owns sources.for_listener loop refl (let k = rw (credential_for, loop) at h in cc)
      | inr far ↦ ingress-Owns sources.ingress far refl (rw (credential_for, far) at h)
    ]

  -- A challenge that was answered with credentials.
  pub record IsAnswered (sources : ProxyAuthSources) (answered : List Text)
      (details : AuthChallenge) (after : List Text) (auth : ProxyAuth) : Type 0 where
    pub id : Text
    pub challenger : Challenger
    pub from_proxy : details.is_proxy ≡ true
    pub request_id : details.request_id ≡ some id
    pub asked_by : details.challenger ≡ some challenger
    pub is_new : holds id answered ≡ false
    pub owned : Owns sources challenger auth
    pub remembered : after ≡ remember id answered

  module _ (sources : ProxyAuthSources) (answered after : List Text) (auth : ProxyAuth) where
    -- The listener answers a challenge with credentials only where a proxy asks, for a request that it
    -- does not remember answering, and only with the challenger's own: a loopback listener gets those
    -- that the native host's live session holds for its address, and any other challenger gets the
    -- browser-proxy credential only if it is the ingress that the routing record names.
    pub on_auth_required-IsAnswered :
        (details : AuthChallenge)
        → on_auth_required lower show sources answered details ≡ (after, credentials auth)
        → IsAnswered sources answered details after auth
    unfolding on_auth_required
    on_auth_required-IsAnswered details h =
        go details.is_proxy details.request_id details.challenger refl refl refl h
      where
        respond-credentials :
            (id : Text) (q : Promised (Option ProxyAuth))
            → respond lower show answered id q ≡ (after, credentials auth)
            → (q ≡ resolved (some auth)) × (after ≡ remember id answered)
        respond-credentials id rejected k = absurd cc
        respond-credentials id (resolved none) k = absurd cc
        respond-credentials id (resolved (some a)) k =
            let same : a ≡ auth = cc in (ap (λ x. resolved (some x)) same, cc)

        go :
            (b : Bool) (r : Option Text) (o : Option Challenger)
            → details.is_proxy ≡ b
            → details.request_id ≡ r
            → details.challenger ≡ o
            → (if b then answer lower show sources answered r o else (answered, ignored))
              ≡ (after, credentials auth)
            → IsAnswered sources answered details after auth
        go false r o eb er eo k = absurd cc
        go true r none eb er eo k = absurd cc
        go true none (some c) eb er eo k = absurd cc
        go true (some id) (some c) eb er eo k = elim (Bool-cases (holds id answered)) [
          | inl old ↦ absurd (let j = rw old at k in cc)
          | inr new ↦
              let (e, kept) =
                respond-credentials id (credential_for lower show sources c) (rw new at k) in
              record {
                id = id;
                challenger = c;
                from_proxy = eb;
                request_id = er;
                asked_by = eo;
                is_new = new;
                owned = credential_for-Owns sources c auth e;
                remembered = kept;
              }
        ]
