-- ===== src/Discovery/Selector.antt =====
-- packages/core/src/discovery/selector.ts. `toLowerCase` is a parameter. Sums of weights are exact:
-- they stay below 2 ^ 53.
pub mod First
pub mod Weighted
pub mod Attempt
use Prim.Native.String.{String}
use text.Mathlib.Text.{◌==◌ as str_eq}
use warren_sdk_ts.Prelude.{
  ℕ, ◌+◌, ◌-◌, List, [], ◌∷◌, Option, none, some, Bool, true, false, not, ◌&&◌, ◌||◌, ltb, ◌==◌,
  if◌then◌else◌,
}
use warren_sdk_ts.Discovery.Relay.{Relay}

pub data LocationConstraint : Type 0 where
  any : LocationConstraint
  country : String → LocationConstraint
  city : String → String → LocationConstraint

pub data IpAvailability : Type 0 where
  both ipv4_only ipv6_only : IpAvailability

-- An absent field of the query is `none`.
pub record ExitQuery : Type 0 where
  pub location : Option LocationConstraint
  pub ip_availability : Option IpAvailability
  pub require_ipv6_egress : Option Bool

-- `none` is `NoRelayMatchError`.
abbrev pub Selected : Type 0
Selected = Option Relay

abbrev pub or_default {ℓ} : {A : Type ℓ} → Option A → A → A
or_default none d = d
or_default (some a) d = a

unfoldable pub ip_matches : Option IpAvailability → Relay → Bool
ip_matches availability relay = elim (or_default availability both) [
  | ipv4_only ↦ relay.has_ipv4
  | ipv6_only ↦ relay.has_ipv6
  | both ↦ relay.has_ipv4 || relay.has_ipv6
]

module _ (lower : String → String) where
  unfoldable pub location_matches : Option LocationConstraint → Relay → Bool
  location_matches none relay = true
  location_matches (some any) relay = true
  location_matches (some (country c)) relay = str_eq (lower relay.country) (lower c)
  location_matches (some (city c t)) relay =
      str_eq (lower relay.country) (lower c) && str_eq (lower relay.city) (lower t)

  unfoldable pub relay_matches : Relay → ExitQuery → Bool
  relay_matches relay query =
      if not relay.active
      then false
      else if not (location_matches query.location relay)
      then false
      else if not (ip_matches query.ip_availability relay)
      then false
      else if or_default query.require_ipv6_egress false && not relay.ipv6_egress
      then false
      else true

-- `pool.filter(p)`
unfoldable pub keep : (Relay → Bool) → List Relay → List Relay
keep p [] = []
keep p (r ∷ relays) = let rest = keep p relays in if p r then r ∷ rest else rest

abbrev pub first : List Relay → Selected
first [] = none
first (r ∷ relays) = some r

abbrev pub last_or : Relay → List Relay → Relay
last_or d [] = d
last_or d (r ∷ relays) = last_or r relays

unfoldable pub total_weight : List Relay → ℕ
total_weight [] = 0
total_weight (r ∷ relays) = r.weight + total_weight relays

-- The loop of `weightedPick`: `roll` falls by each weight that it is not below. `d` is the last relay
-- of the pool, for a roll that passes them all.
unfoldable pub pick_loop : Relay → ℕ → List Relay → Relay
pick_loop d roll [] = d
pick_loop d roll (r ∷ relays) =
    let rest = pick_loop d (roll - r.weight) relays in if ltb roll r.weight then r else rest

-- `draw total` stands for `Math.floor(rng() * total)`.
unfoldable pub weighted_pick : (ℕ → ℕ) → Relay → List Relay → Relay
weighted_pick draw r relays =
    let total = total_weight (r ∷ relays) in
    if total == 0 then r else pick_loop (last_or r relays) (draw total) (r ∷ relays)

abbrev pub pick_from : (ℕ → ℕ) → List Relay → Selected
pick_from draw [] = none
pick_from draw (r ∷ relays) = some (weighted_pick draw r relays)

module _ (lower : String → String) where
  unfoldable pub candidates : List Relay → ExitQuery → List Relay
  candidates relays query = keep (λ r. relay_matches lower r query) relays

  unfoldable pub select_exit : List Relay → ExitQuery → Selected
  select_exit relays query = first (candidates relays query)

  unfoldable pub select_exit_weighted : List Relay → ExitQuery → (ℕ → ℕ) → Selected
  select_exit_weighted relays query draw =
      pick_from draw (keep (λ r. ltb 0 r.weight) (candidates relays query))
