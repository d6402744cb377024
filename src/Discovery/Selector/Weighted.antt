-- ===== src/Discovery/Selector/Weighted.antt =====
-- `selectExitWeighted` gives each relay of the pool as many rolls as its weight.
use Prim.Native.String.{String}
use mathlib.Core.List.{Mem, mem-cons_self, mem-cons_of_mem}
use warren_sdk_ts.Prelude.{
  ℕ, ◌+◌, ◌-◌, ◌<◌, ◌≡◌, ap, List, [], ◌∷◌, ◌++◌, some, Bool, true, false, All, All-mono, arith,
  Bool-cases, inl, inr, ltb, ltb→lt, le→ltb, ◌==◌,
}
use warren_sdk_ts.Discovery.Relay.{Relay}
use warren_sdk_ts.Discovery.Selector.First.{some-eq}
use mathlib.Core.Path.{subst}
use warren_sdk_ts.Discovery.Selector.{
  ExitQuery, relay_matches, keep, last_or, total_weight, pick_loop, weighted_pick, pick_from,
  candidates, select_exit_weighted,
}

total_weight-append :
    (xs ys : List Relay) → total_weight (xs ++ ys) ≡ total_weight xs + total_weight ys
unfolding total_weight
total_weight-append [] ys = omega arith
total_weight-append (x ∷ xs) ys = omega (arith, total_weight-append xs ys)

-- A roll that lies in the stretch of `r` stops at `r`.
pick_loop-stretch :
    (d r : Relay) (k : ℕ) (before after : List Relay)
    → k < r.weight
    → pick_loop d (total_weight before + k) (before ++ (r ∷ after)) ≡ r
unfolding pick_loop total_weight
pick_loop-stretch d r k [] after h = ground arith
pick_loop-stretch d r k (s ∷ before) after h =
    let past : ltb (s.weight + total_weight before + k) s.weight ≡ false =
      le→ltb (s.weight + total_weight before + k) s.weight (omega arith) in
    let left : s.weight + total_weight before + k - s.weight ≡ total_weight before + k =
      omega arith in
    rw (past, left) (pick_loop-stretch d r k before after h)

-- What the loop returns satisfies what the fallback and every relay of the list do.
pick_loop_inv :
    (P : Relay → Type 0) (d : Relay) (roll : ℕ) (relays : List Relay)
    → P d
    → All P relays
    → P (pick_loop d roll relays)
unfolding pick_loop
pick_loop_inv P d roll [] hd h = hd
pick_loop_inv P d roll (r ∷ relays) hd (hr, h) = elim (Bool-cases (ltb roll r.weight)) [
  | inl e ↦ rw e hr
  | inr e ↦ rw e (pick_loop_inv P d (roll - r.weight) relays hd h)
]

last_or_inv :
    (P : Relay → Type 0) (d : Relay) (relays : List Relay)
    → P d
    → All P relays
    → P (last_or d relays)
last_or_inv P d [] hd h = hd
last_or_inv P d (r ∷ relays) hd (hr, h) = last_or_inv P r relays hr h

weighted_pick_inv :
    (P : Relay → Type 0) (draw : ℕ → ℕ) (r : Relay) (relays : List Relay)
    → P r
    → All P relays
    → P (weighted_pick draw r relays)
unfolding weighted_pick
weighted_pick_inv P draw r relays hr h = elim (Bool-cases (total_weight (r ∷ relays) == 0)) [
  | inl e ↦ rw e hr
  | inr e ↦ rw e (
      pick_loop_inv P (last_or r relays) (draw (total_weight (r ∷ relays))) (r ∷ relays)
        (last_or_inv P r relays hr h) (hr, h))
]

weighted_pick-stretch :
    (draw : ℕ → ℕ) (s r : Relay) (pool before after : List Relay) (k : ℕ)
    → s ∷ pool ≡ before ++ (r ∷ after)
    → k < r.weight
    → draw (total_weight (s ∷ pool)) ≡ total_weight before + k
    → weighted_pick draw s pool ≡ r
unfolding weighted_pick
weighted_pick-stretch draw s r pool before after k e h roll =
    rw (positive, roll, e) (pick_loop-stretch (last_or s pool) r k before after h)
  where
    positive : (total_weight (s ∷ pool) == 0) ≡ false
    positive = rw (e, total_weight-append) (unfold total_weight in ground arith)

-- What holds of a list holds of what a filter keeps, with the filter's test.
All-keep :
    (P : Relay → Type 0) (p : Relay → Bool) (relays : List Relay)
    → All P relays
    → All (λ r. P r × (p r ≡ true)) (keep p relays)
unfolding keep
All-keep P p [] h = tt
All-keep P p (r ∷ relays) (hr, h) = elim (Bool-cases (p r)) [
  | inl e ↦ rw e ((hr, e), All-keep P p relays h)
  | inr e ↦ rw e (All-keep P p relays h)
]

All-mem : (relays : List Relay) → All (λ r. Mem r relays) relays
All-mem [] = tt
All-mem (r ∷ relays) = (
  mem-cons_self,
  All-mono _ (λ s. Mem s (r ∷ relays)) relays (λ s h. mem-cons_of_mem r h) (All-mem relays),
)

pick_from_inv :
    (P : Relay → Type 0) (draw : ℕ → ℕ) (pool : List Relay) (r : Relay)
    → All P pool
    → pick_from draw pool ≡ some r
    → P r
pick_from_inv P draw [] r h e = cc
pick_from_inv P draw (s ∷ pool) r (hs, h) e =
    subst P (some-eq (weighted_pick draw s pool) r e) (weighted_pick_inv P draw s pool hs h)

pick_from-stretch :
    (draw : ℕ → ℕ) (r : Relay) (relays before after : List Relay) (k : ℕ)
    → relays ≡ before ++ (r ∷ after)
    → k < r.weight
    → draw (total_weight relays) ≡ total_weight before + k
    → pick_from draw relays ≡ some r
pick_from-stretch draw r [] [] after k e h roll = cc
pick_from-stretch draw r [] (b ∷ before) after k e h roll = cc
pick_from-stretch draw r (s ∷ relays) before after k e h roll =
    ap some (weighted_pick-stretch draw s r relays before after k e h roll)

module _ (lower : String → String) (relays : List Relay) (query : ExitQuery) where
  -- The relays that `selectExitWeighted` chooses from.
  abbrev pub pool : List Relay
  pool = keep (λ r. ltb 0 r.weight) (candidates lower relays query)

  -- What makes a relay eligible: it is in the list, satisfies the query and has a positive weight.
  abbrev pub IsEligible : Relay → Type 0
  IsEligible r = Mem r relays × (relay_matches lower r query ≡ true) × (0 < r.weight)

  pool-IsEligible : All IsEligible pool
  unfolding candidates
  pool-IsEligible =
      All-mono _ IsEligible pool (λ r h. (h.0.0, h.0.1, ltb→lt 0 r.weight h.1))
        (All-keep _ (λ r. ltb 0 r.weight) (candidates lower relays query)
          (All-keep (λ r. Mem r relays) (λ r. relay_matches lower r query) relays (All-mem relays)))

  -- Whatever is drawn, a relay that `selectExitWeighted` returns is in the list, satisfies the query and
  -- has a positive weight.
  pub select_exit_weighted-IsEligible :
      (draw : ℕ → ℕ) (r : Relay)
      → select_exit_weighted lower relays query draw ≡ some r
      → IsEligible r
  unfolding select_exit_weighted
  select_exit_weighted-IsEligible draw r e = pick_from_inv IsEligible draw pool r pool-IsEligible e

  -- Each relay of the pool is returned for exactly as many rolls as its weight: for those from the sum
  -- of the weights before it on, and below that sum with its own weight.
  pub select_exit_weighted-stretch :
      (draw : ℕ → ℕ) (r : Relay) (before after : List Relay) (k : ℕ)
      → pool ≡ before ++ (r ∷ after)
      → k < r.weight
      → draw (total_weight pool) ≡ total_weight before + k
      → select_exit_weighted lower relays query draw ≡ some r
  unfolding select_exit_weighted
  select_exit_weighted-stretch draw r before after k split h roll =
      pick_from-stretch draw r pool before after k split h roll
