-- ===== src/Discovery/Selector/First.antt =====
-- `selectExit` takes the first relay that satisfies the query.
use Prim.Native.String.{String}
use text.Mathlib.TextEquality.{eq_iff}
use warren_sdk_ts.Prelude.{
  ◌≡◌, ◌↔◌, ◌⊎◌, Option, not, ◌&&◌, arith, refl, ap, List, [], ◌∷◌, ◌++◌, none, some, Bool, true,
  false, All, Bool-cases, inl, inr,
}
use warren_sdk_ts.Discovery.Relay.{Relay}
use warren_sdk_ts.Discovery.Selector.{
  LocationConstraint, any, country, city, IpAvailability, both, ipv4_only, ipv6_only, ExitQuery,
  or_default, ip_matches, location_matches, relay_matches, keep, first, candidates, select_exit,
}

-- `r` is the first of `relays` that `p` holds of.
pub record IsFirst (p : Relay → Bool) (r : Relay) (relays : List Relay) : Type 0 where
  pub before : List Relay
  pub after : List Relay
  pub split : relays ≡ before ++ (r ∷ after)
  pub passed_over : All (λ s. p s ≡ false) before
  pub holds : p r ≡ true

IsFirst-cons :
    (p : Relay → Bool) (r s : Relay) (relays : List Relay)
    → p s ≡ false
    → IsFirst p r relays
    → IsFirst p r (s ∷ relays)
IsFirst-cons p r s relays h f = record {
  before = s ∷ f.before;
  after = f.after;
  split = ap (λ t. s ∷ t) f.split;
  passed_over = (h, f.passed_over);
  holds = f.holds;
}

pub some-eq : (s r : Relay) → some s ≡ some r → s ≡ r
some-eq s r e = cc

first-keep :
    (p : Relay → Bool) (r : Relay) (relays : List Relay)
    → first (keep p relays) ≡ some r
    → IsFirst p r relays
unfolding keep
first-keep p r [] e = cc
first-keep p r (s ∷ relays) e = elim (Bool-cases (p s)) [
  | inl h ↦
      let same : s ≡ r = some-eq s r (rw h at e) in
      record {
        before = [];
        after = relays;
        split = ap (λ t. t ∷ relays) same;
        passed_over = tt;
        holds = rw (← same) h;
      }
  | inr h ↦ IsFirst-cons p r s relays h (first-keep p r relays (rw h at e))
]

first-IsFirst :
    (p : Relay → Bool) (r : Relay) (before after : List Relay)
    → All (λ s. p s ≡ false) before
    → p r ≡ true
    → first (keep p (before ++ (r ∷ after))) ≡ some r
unfolding keep
first-IsFirst p r [] after h e = rw e
first-IsFirst p r (s ∷ before) after (hs, h) e = rw hs (first-IsFirst p r before after h e)

first_none :
    (p : Relay → Bool) (relays : List Relay)
    → first (keep p relays) ≡ none
    → All (λ s. p s ≡ false) relays
unfolding keep
first_none p [] e = tt
first_none p (s ∷ relays) e = elim (Bool-cases (p s)) [
  | inl h ↦ cc (rw h at e)
  | inr h ↦ (h, first_none p relays (rw h at e))
]

none_kept :
    (p : Relay → Bool) (relays : List Relay)
    → All (λ s. p s ≡ false) relays
    → first (keep p relays) ≡ none
unfolding keep
none_kept p [] h = refl
none_kept p (s ∷ relays) (hs, h) = rw hs (none_kept p relays h)

-- A relay is where a query asks for one.
abbrev pub InPlace : (String → String) → Option LocationConstraint → Relay → Type 0
InPlace lower none r = Unit {0}
InPlace lower (some any) r = Unit {0}
InPlace lower (some (country c)) r = lower r.country ≡ lower c
InPlace lower (some (city c t)) r = (lower r.country ≡ lower c) × (lower r.city ≡ lower t)

-- It has an address of a family that the query admits: of either, unless it names one.
abbrev pub HasAddress : Option IpAvailability → Relay → Type 0
HasAddress none r = (r.has_ipv4 ≡ true) ⊎ (r.has_ipv6 ≡ true)
HasAddress (some both) r = (r.has_ipv4 ≡ true) ⊎ (r.has_ipv6 ≡ true)
HasAddress (some ipv4_only) r = r.has_ipv4 ≡ true
HasAddress (some ipv6_only) r = r.has_ipv6 ≡ true

abbrev pub HasEgress : Option Bool → Relay → Type 0
HasEgress none r = Unit {0}
HasEgress (some false) r = Unit {0}
HasEgress (some true) r = r.ipv6_egress ≡ true

-- What a query asks of a relay
pub record Satisfies (lower : String → String) (query : ExitQuery) (r : Relay) : Type 0 where
  pub active : r.active ≡ true
  pub place : InPlace lower query.location r
  pub address : HasAddress query.ip_availability r
  pub egress : HasEgress query.require_ipv6_egress r

module _ (lower : String → String) (r : Relay) where
  location_matches_iff :
      (o : Option LocationConstraint) → (location_matches lower o r ≡ true) ↔ InPlace lower o r
  unfolding location_matches
  location_matches_iff none = ((λ h. tt), (λ h. refl))
  location_matches_iff (some any) = ((λ h. tt), (λ h. refl))
  location_matches_iff (some (country c)) = eq_iff (lower r.country) (lower c)
  location_matches_iff (some (city c t)) =
      let here = eq_iff (lower r.country) (lower c) in
      let there = eq_iff (lower r.city) (lower t) in ground arith

  ip_matches_iff : (o : Option IpAvailability) → (ip_matches o r ≡ true) ↔ HasAddress o r
  unfolding ip_matches
  ip_matches_iff none = ground arith
  ip_matches_iff (some both) = ground arith
  ip_matches_iff (some ipv4_only) = ((λ h. h), (λ h. h))
  ip_matches_iff (some ipv6_only) = ((λ h. h), (λ h. h))

  egress_iff :
      (o : Option Bool) → ((or_default o false && not r.ipv6_egress) ≡ false) ↔ HasEgress o r
  egress_iff none = ((λ h. tt), (λ h. refl))
  egress_iff (some false) = ((λ h. tt), (λ h. refl))
  egress_iff (some true) = ground arith

  relay_matches_iff :
      (query : ExitQuery) → (relay_matches lower r query ≡ true) ↔ Satisfies lower query r
  unfolding relay_matches
  relay_matches_iff query =
      let place = location_matches_iff query.location in
      let address = ip_matches_iff query.ip_availability in
      let egress = egress_iff query.require_ipv6_egress in
      (
        (λ h.
            let (a, l, i, e) : (r.active ≡ true)
                × (location_matches lower query.location r ≡ true)
                × (ip_matches query.ip_availability r ≡ true)
                × ((or_default query.require_ipv6_egress false && not r.ipv6_egress) ≡ false) =
              ground arith in
            record { active = a; place = place.0 l; address = address.0 i; egress = egress.0 e }),
        (λ s.
            let l = place.1 s.place in
            let i = address.1 s.address in
            let e = egress.1 s.egress in let a = s.active in rw (l, i, e, a) refl),
      )

-- `r` is the first of `relays` that satisfies the query.
pub record IsFirstMatch (lower : String → String) (query : ExitQuery) (r : Relay)
    (relays : List Relay) : Type 0 where
  pub before : List Relay
  pub after : List Relay
  pub split : relays ≡ before ++ (r ∷ after)
  pub passed_over : All (λ s. ¬ Satisfies lower query s) before
  pub satisfies : Satisfies lower query r

module _ (lower : String → String) (query : ExitQuery) where
  All-refused :
      (relays : List Relay)
      → All (λ s. relay_matches lower s query ≡ false) relays
        ↔ All (λ s. ¬ Satisfies lower query s) relays
  All-refused [] = ((λ h. tt), (λ h. tt))
  All-refused (s ∷ relays) =
      let ih = All-refused relays in
      let here = relay_matches_iff lower s query in
      (
        (λ h. ((λ t. absurd (let f = h.0 in let e = here.1 t in cc)), ih.0 h.1)),
        (λ h. (refused (h.0) here.0, ih.1 h.1)),
      )
    where
      refused :
          ¬ Satisfies lower query s
          → (relay_matches lower s query ≡ true → Satisfies lower query s)
          → relay_matches lower s query ≡ false
      refused unsatisfied matched = elim (Bool-cases (relay_matches lower s query)) [
        | inl e ↦ absurd (unsatisfied (matched e))
        | inr e ↦ e
      ]

  -- `selectExit` returns exactly the first relay that satisfies the query: it is active, it is in the
  -- country and the city that are asked for, compared in lower case, it has an address of a family
  -- that is admitted, and IPv6 egress where that is required; and no relay before it does.
  pub select_exit_iff :
      (relays : List Relay) (r : Relay)
      → (select_exit lower relays query ≡ some r) ↔ IsFirstMatch lower query r relays
  unfolding select_exit candidates
  select_exit_iff relays r = (
    (λ h.
        let f = first-keep (λ s. relay_matches lower s query) r relays h in
        record {
          before = f.before;
          after = f.after;
          split = f.split;
          passed_over = (All-refused f.before).0 f.passed_over;
          satisfies = (relay_matches_iff lower r query).0 f.holds;
        }),
    λ f. rw f.split (
        first-IsFirst (λ s. relay_matches lower s query) r f.before f.after
          ((All-refused f.before).1 f.passed_over)
          ((relay_matches_iff lower r query).1 f.satisfies)),
  )

module _ (lower : String → String) where
  -- `selectExit` throws exactly when no relay satisfies the query.
  pub select_exit-none :
      (relays : List Relay) (query : ExitQuery)
      → (select_exit lower relays query ≡ none)
        ↔ All (λ s. relay_matches lower s query ≡ false) relays
  unfolding select_exit candidates
  select_exit-none relays query = (
    first_none (λ s. relay_matches lower s query) relays,
    none_kept (λ s. relay_matches lower s query) relays,
  )
