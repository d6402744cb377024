-- ===== src/Split/Pac.antt =====
-- packages/extension/src/split.ts: `FindProxyForURL`, the function in the text of a PAC script, and the
-- matcher that it repeats. Firefox decides by the matcher and Chromium by the script.
use warren_sdk_ts.Prelude.{
  ◌-◌, ◌<◌, ◌≡◌, ◌⊎◌, inl, inr, refl, ap, ◌∙◌, List, [], ◌∷◌, map, Bool, true, false, not, ◌||◌,
  ltb, le→leb, lt→leb, not_less, ltb→lt, Bool-cases, arith, ◌==◌, length, drop, length-drop, All,
  if◌then◌else◌,
}
use warren_sdk_ts.Discovery.Json.{codes}
use warren_sdk_ts.Split.{
  Text, only, is_only, SplitTunnelConfig, dot, star, equal, starts, ends_with, is_loopback_name,
  matches_lower, host_matches_rule, is_loopback, some_rule, should_tunnel_host,
}
use warren_sdk_ts.Split.Rules.{equal_iff}

-- `host.slice(-r.length) === r`, where `r` is not empty
unfoldable pub ends_in : Text → Text → Bool
ends_in host r = equal (drop (length host - length r) host) r

-- `r.charAt(0) === c`
abbrev pub first_is_dot : Text → Bool
first_is_dot [] = false
first_is_dot (c ∷ cs) = c == dot

-- The body of the loop behind the test for `*`, on a rule that has lost its first `*`
unfoldable pub matches_suffix : Text → Text → Bool
unfolding equal ends_in
matches_suffix host r =
    if first_is_dot r then ends_in host r else equal host r || ends_in host (dot ∷ r)

abbrev pub without_star : Text → Text
without_star [] = []
without_star (c ∷ cs) = if c == star then cs else c ∷ cs

unfoldable pub matches_in_pac : Text → Text → Bool
unfolding equal matches_suffix
matches_in_pac host r = if equal r (star ∷ []) then true else matches_suffix host (without_star r)

abbrev pub some_match : Text → List Text → Bool
some_match host [] = false
some_match host (r ∷ rules) = matches_in_pac host r || some_match host rules

-- `localhost`, `dnsDomainIs(host, '.localhost')`, `127.0.0.1` and `::1`
abbrev pub is_local_in_pac : Text → Bool
is_local_in_pac host =
    equal host (codes "localhost")
    || (ends_with host (codes ".localhost")
        || (equal host (codes "127.0.0.1") || equal host (codes "::1")))

-- Whether the script names its proxy for a host, rather than `DIRECT`
unfoldable pub find_proxy_for_url : (Text → Text) → List Text → Bool → Text → Bool
unfolding equal ends_with matches_in_pac
find_proxy_for_url lower rules only_mode host =
    if is_local_in_pac (lower host)
    then false
    else if only_mode
    then some_match (lower host) rules
    else not (some_match (lower host) rules)

-- A rule of the documented forms: a star stands alone or before a dot.
abbrev pub is_plain : Text → Bool
is_plain [] = true
is_plain (c ∷ []) = true
is_plain (c ∷ d ∷ cs) = not (c == star) || (d == dot)

equal-length : (s t : Text) → equal s t ≡ true → length s ≡ length t
equal-length s t h = ap length ((equal_iff s t).0 h)

ends_in-ends_with : (host r : Text) → ends_in host r ≡ ends_with host r
unfolding ends_in ends_with
ends_in-ends_with host r = elim (Bool-cases (ltb (length host) (length r))) [
  | inr longer ↦ rw (le→leb (length r) (length host) (not_less _ _ longer)) refl
  | inl shorter ↦
      let less = ltb→lt (length host) (length r) shorter in
      rw (lt→leb (length r) (length host) less)
        (differs (Bool-cases (equal (drop (length host - length r) host) r)) less)
]
  where
    differs :
        ((equal (drop (length host - length r) host) r ≡ true)
          ⊎ (equal (drop (length host - length r) host) r ≡ false))
        → length host < length r
        → equal (drop (length host - length r) host) r ≡ false
    differs (inr other) less = other
    differs (inl same) less = absurd (
        omega (
          arith,
          equal-length (drop (length host - length r) host) r same,
          length-drop (length host - length r) host,
        ))

matches_suffix-lower :
    (host r : Text)
    → matches_suffix host r
      ≡ (if first_is_dot r then ends_with host r else equal host r || ends_with host (dot ∷ r))
unfolding matches_suffix
matches_suffix-lower host r = rw (ends_in-ends_with host r, ends_in-ends_with host (dot ∷ r)) refl

if_bool : (b x y : Bool) → (if b then x else y) ≡ (if (if b then true else false) then x else y)
if_bool true x y = refl
if_bool false x y = refl

-- On a rule of the documented forms the script and the matcher agree.
plain-matches : (host r : Text) → is_plain r ≡ true → matches_in_pac host r ≡ matches_lower host r
unfolding matches_in_pac matches_lower equal starts
plain-matches host [] h = matches_suffix-lower host []
plain-matches host (c ∷ []) h = elim (Bool-cases (c == star)) [
  | inl e ↦ rw e refl
  | inr e ↦ rw e (matches_suffix-lower host (c ∷ []) ∙ if_bool (c == dot) _ _)
]
plain-matches host (c ∷ d ∷ cs) h = elim (Bool-cases (c == star)) [
  | inl e ↦
      let dotted : (d == dot) ≡ true = rw e at h in rw (e, dotted) (ends_in-ends_with host (d ∷ cs))
  | inr e ↦ rw e (matches_suffix-lower host (c ∷ d ∷ cs) ∙ if_bool (c == dot) _ _)
]

module _ (lower : Text → Text) where
  plain-some_rule :
      (host : Text) (rules : List Text)
      → All (λ r. is_plain (lower r) ≡ true) rules
      → some_match (lower host) (map lower rules) ≡ some_rule lower host rules
  unfolding some_rule host_matches_rule
  plain-some_rule host [] h = refl
  plain-some_rule host (r ∷ rules) (plain, h) =
      rw (plain-matches (lower host) (lower r) plain, plain-some_rule host rules h) refl

  same_local :
      (host : Text)
      → equal host (codes "::1") ≡ false
      → equal host (codes "[::1]") ≡ false
      → is_local_in_pac host ≡ is_loopback_name host
  unfolding is_loopback_name
  same_local host short bracketed = rw (short, bracketed) refl

  -- In `only` mode, the one in which a script is built, the script names its proxy for a host exactly
  -- where the matcher sends the host into the tunnel: for rules of the documented forms, in which a star
  -- stands alone or before a dot, and for hosts other than the IPv6 loopback address, which the two
  -- write differently.
  pub find_proxy_for_url-should_tunnel_host :
      (host : Text) (config : SplitTunnelConfig)
      → config.mode ≡ only
      → equal (lower host) (codes "::1") ≡ false
      → equal (lower host) (codes "[::1]") ≡ false
      → All (λ r. is_plain (lower r) ≡ true) config.rules
      → find_proxy_for_url lower (map lower config.rules) (is_only config.mode) host
        ≡ should_tunnel_host lower host config
  unfolding find_proxy_for_url should_tunnel_host is_loopback
  find_proxy_for_url-should_tunnel_host host config mode short bracketed plain =
      rw (mode, same_local (lower host) short bracketed, plain-some_rule host config.rules plain)
        refl
