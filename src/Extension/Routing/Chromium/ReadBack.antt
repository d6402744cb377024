-- ===== src/Extension/Routing/Chromium/ReadBack.antt =====
-- What is installed in Chromium is what is read back.
use warren_sdk_ts.Prelude.{
  ◌≡◌, ◌⊎◌, inl, inr, refl, ap, ◌∙◌, List, none, some, Bool, true, false, not, ◌&&◌, ◌||◌, ◌++◌, [],
  ◌∷◌, append-nil, append_assoc, arith, Bool-cases, ◌==◌,
}
use warren_sdk_ts.Split.{Text, equal, is_only}
use warren_sdk_ts.Extension.Values.{
  ProxyValue, host_of, port_of, is_quote, host_group, lockdown_host, build_chromium_lockdown_value,
  build_chromium_ingress_value, is_lockdown_value, ingress_host_from_value,
}
use warren_sdk_ts.Extension.Routing.{RoutingState}
use warren_sdk_ts.Extension.Routing.Chromium.{
  ProxySettings, controllable, is_ours, installed, ReadRouting, shown_host, read_chromium_routing,
  chromium_value_of, install_chromium_routing,
}

module _ (lower : Text → Text) (browser_set : ProxySettings → ProxyValue → ProxySettings) where
  -- An installation that succeeds has set the value and holds the settings.
  install-set :
      (before after : ProxySettings) (state : RoutingState ⊎ List Text)
      → install_chromium_routing lower browser_set before state ≡ (after, installed)
      → (after ≡ browser_set before (chromium_value_of lower browser_set state))
        × (is_ours after.level_of_control ≡ true)
  unfolding install_chromium_routing
  install-set before after state h = elim (Bool-cases (controllable before.level_of_control)) [
    | inr no_control ↦ absurd (let k = rw (install_chromium_routing, no_control) at h in cc)
    | inl control ↦
        elim (Bool-cases (
          is_ours
            (browser_set before (chromium_value_of lower browser_set state)).level_of_control)) [
              | inr lost ↦ absurd (let k = rw (install_chromium_routing, control, lost) at h in cc)
              | inl held ↦
                  let k = rw (install_chromium_routing, control, held) at h in
                  let same : after
                      ≡ browser_set before (chromium_value_of lower browser_set state) =
                    cc in
                  (same, rw same held)
            ]
  ]

abbrev no_break : Text → Bool
no_break [] = true
no_break (c ∷ cs) = (not (c == 58) && not (is_quote c)) && no_break cs

-- A host name: not empty, with no colon and no quote, so neither an IPv6 literal.
abbrev pub is_host_name : Text → Bool
is_host_name [] = false
is_host_name (c ∷ cs) = no_break (c ∷ cs)

host_group-no_break :
    (seen host : Text) → no_break host ≡ true → host_group seen host ≡ host_group (seen ++ host) []
unfolding host_group
host_group-no_break seen [] h = rw (append-nil seen) refl
host_group-no_break seen (c ∷ cs) h =
    let (colon, quote, rest) : ((c == 58) ≡ false) × (is_quote c ≡ false) × (no_break cs ≡ true) =
      ground arith in
    rw (colon, quote, host_group-no_break (seen ++ c ∷ []) cs rest, append_assoc seen (c ∷ []) cs)
      refl

host_group-is_host_name : (host : Text) → is_host_name host ≡ true → host_group [] host ≡ some host
host_group-is_host_name [] h = absurd cc
host_group-is_host_name (c ∷ cs) h = host_group-no_break [] (c ∷ cs) h ∙ whole
  where
    whole : host_group (c ∷ cs) [] ≡ some (c ∷ cs)
    whole = unfold host_group in refl

-- A script names the ingress in `only` mode: then its host is to be a name.
abbrev pub is_named : RoutingState ⊎ List Text → Bool
is_named (inl state) = not (is_only state.split.mode) || is_host_name (host_of state.endpoint)
is_named (inr exempt) = true

ingress_host :
    (lower : Text → Text) (state : RoutingState)
    → is_named (inl state) ≡ true
    → ingress_host_from_value (build_chromium_ingress_value lower state.endpoint state.split)
      ≡ some (host_of state.endpoint)
unfolding ingress_host_from_value build_chromium_ingress_value
ingress_host lower state h = elim (Bool-cases (is_only state.split.mode)) [
  | inl e ↦ rw e (host_group-is_host_name (host_of state.endpoint) (let k = rw e at h in k))
  | inr e ↦ rw e refl
]

-- What the settings are to be read as.
abbrev pub read_as : RoutingState ⊎ List Text → Text → ReadRouting
read_as (inl state) expected = record {
  controlled = true;
  ours = equal (host_of state.endpoint) expected;
  lockdown = false;
  host = shown_host (some (host_of state.endpoint));
}
read_as (inr exempt) expected = record {
  controlled = true;
  ours = false;
  lockdown = true;
  host = none;
}

-- An ingress is not the address that a lockdown points at.
abbrev pub is_distinct : RoutingState ⊎ List Text → Bool
is_distinct (inl state) =
    not (equal (host_of state.endpoint) lockdown_host && (port_of state.endpoint == 1))
is_distinct (inr exempt) = true

module _ (lower : Text → Text) (browser_set : ProxySettings → ProxyValue → ProxySettings) where
  not_lockdown :
      (state : RoutingState)
      → is_distinct (inl state) ≡ true
      → is_lockdown_value (build_chromium_ingress_value lower state.endpoint state.split) ≡ false
  unfolding is_lockdown_value build_chromium_ingress_value
  not_lockdown state h = elim (Bool-cases (is_only state.split.mode)) [
    | inl e ↦ rw e refl
    | inr e ↦
        rw e
          (flip (equal (host_of state.endpoint) lockdown_host && (port_of state.endpoint == 1)) h)
  ]
    where
      flip : (b : Bool) → not b ≡ true → b ≡ false
      flip true k = absurd cc
      flip false k = refl

  read_value :
      (after : ProxySettings) (state : RoutingState ⊎ List Text) (expected : Text)
      → is_distinct state ≡ true
      → is_named state ≡ true
      → is_ours after.level_of_control ≡ true
      → after.value ≡ chromium_value_of lower browser_set state
      → read_chromium_routing after expected ≡ read_as state expected
  unfolding read_chromium_routing
  read_value after (inl state) expected distinct named held value =
      rw
        (
          read_chromium_routing,
          held,
          value,
          not_lockdown state distinct,
          ingress_host lower state named,
        )
        refl
  read_value after (inr exempt) expected distinct named held value =
      unfold is_lockdown_value build_chromium_lockdown_value in
      rw (read_chromium_routing, held, value) refl

  -- A routing that Chromium's settings took is read back as it was installed: under this extension's
  -- control, and either as ours when the expected host is the ingress's, with that host, or as a
  -- lockdown. A browser whose settings are under the extension's control is assumed to hold what was
  -- set, an ingress not to be the address of a lockdown, and, in `only` mode, its host to be a name: not
  -- empty, with no colon and no quote in it.
  pub install-read :
      (before after : ProxySettings) (state : RoutingState ⊎ List Text) (expected : Text)
      → ((s : ProxySettings) (v : ProxyValue)
          → is_ours (browser_set s v).level_of_control ≡ true
          → (browser_set s v).value ≡ v)
      → is_distinct state ≡ true
      → is_named state ≡ true
      → install_chromium_routing lower browser_set before state ≡ (after, installed)
      → read_chromium_routing after expected ≡ read_as state expected
  install-read before after state expected takes distinct named h =
      let (same, held) = install-set lower browser_set before after state h in
      read_value after state expected distinct named held (
        ap (λ s. s.value) same
        ∙ takes before (chromium_value_of lower browser_set state) (rw same at held))
