-- ===== src/Split/Rules.antt =====
-- What the rules of a split tunnel cover, and which requests follow the tunnel.
use warren_sdk_ts.Prelude.{
  ◌-◌, ◌≤◌, ◌≡◌, ◌↔◌, ◌⊎◌, refl, ap, sym, ◌∙◌, inl, inr, List, [], ◌∷◌, ◌++◌, Bool, true, false,
  ◌&&◌, ◌==◌, ==_iff, leb, le→leb, Bool-cases, arith, length, take, drop, length-append,
  drop-append, take-append-drop, if◌then◌else◌,
}
use warren_sdk_ts.Split.{
  Text, SplitTunnelMode, all, bypass, only, SplitTunnelConfig, TunnelRequest, dot, star, equal,
  starts, ends_with, matches_lower, host_matches_rule, is_loopback, some_rule, by_mode,
  should_tunnel_host, has_tab, is_only, should_tunnel_request,
}

pub equal_iff : (s t : Text) → (equal s t ≡ true) ↔ (s ≡ t)
unfolding equal
equal_iff [] [] = ((λ h. refl), (λ h. refl))
equal_iff [] (d ∷ t) = ((λ h. absurd cc), (λ h. absurd cc))
equal_iff (c ∷ s) [] = ((λ h. absurd cc), (λ h. absurd cc))
equal_iff (c ∷ s) (d ∷ t) =
    let ih = equal_iff s t in
    elim (Bool-cases (c == d)) [
      | inl e ↦
          let same : c ≡ d = (==_iff c d).0 e in
          rw (e, same) ((λ h. ap (λ u. d ∷ u) (ih.0 h)), (λ h. ih.1 (tail_eq h)))
      | inr e ↦ rw e ((λ h. absurd cc), (λ h. absurd (let q = (==_iff c d).1 (head_eq h) in cc)))
    ]
  where
    tail_eq : {u v : Text} → d ∷ u ≡ d ∷ v → u ≡ v
    tail_eq h = cc

    head_eq : c ∷ s ≡ d ∷ t → c ≡ d
    head_eq h = cc

abbrev pub EndsIn : Text → Text → Type 0
EndsIn s t = (u : Text) × (s ≡ u ++ t)

pub ends_with_iff : (s t : Text) → (ends_with s t ≡ true) ↔ EndsIn s t
unfolding ends_with
ends_with_iff s t = (from, to)
  where
    from : ends_with s t ≡ true → EndsIn s t
    from h = elim (Bool-cases (leb (length t) (length s))) [
      | inl e ↦
          let rest : drop (length s - length t) s ≡ t =
            (equal_iff (drop (length s - length t) s) t).0 (rw (ends_with, e) at h) in
          (
            take (length s - length t) s,
            sym (take-append-drop (length s - length t) s)
                ∙ ap (λ u. take (length s - length t) s ++ u) rest,
          )
      | inr e ↦ absurd (let k = rw (ends_with, e) at h in cc)
    ]

    to : EndsIn s t → ends_with s t ≡ true
    to (u, e) =
        let longer : length t ≤ length s = rw e (omega (arith, length-append u t)) in
        let front : length s - length t ≡ length u = rw e (omega (arith, length-append u t)) in
        let rest : drop (length s - length t) s ≡ t = rw (front, e) (drop-append u t) in
        rw (le→leb (length t) (length s) longer, rest) ((equal_iff t t).1 refl)

-- A host `h` under a rule `r`, both in lower case.
pub data Covers (h : Text) : Text → Type 0 where
  everything : Covers h (star ∷ [])
  below_star : (t : Text) → EndsIn h (dot ∷ t) → Covers h (star ∷ dot ∷ t)
  below_dot : (t : Text) → EndsIn h (dot ∷ t) → Covers h (dot ∷ t)
  itself : Covers h h
  below :
      (r : Text)
      → starts r (star ∷ dot ∷ []) ≡ false
      → starts r (dot ∷ []) ≡ false
      → EndsIn h (dot ∷ r)
      → Covers h r

starts_split : (s t : Text) → starts s t ≡ true → (u : Text) × (s ≡ t ++ u)
unfolding starts
starts_split s [] h = (s, refl)
starts_split [] (d ∷ t) h = absurd cc
starts_split (c ∷ s) (d ∷ t) h = elim (Bool-cases (c == d)) [
  | inl e ↦
      let same : c ≡ d = (==_iff c d).0 e in
      let (u, q) = starts_split s t (rw e at h) in (u, rw (same, q) refl)
  | inr e ↦ absurd (let k = rw e at h in cc)
]

matches_lower-Covers : (h r : Text) → matches_lower h r ≡ true → Covers h r
unfolding matches_lower
matches_lower-Covers h r m = elim (Bool-cases (equal r (star ∷ []))) [
  | inl a ↦ let e : r ≡ star ∷ [] = (equal_iff r (star ∷ [])).0 a in rw e everything
  | inr a ↦ elim (Bool-cases (starts r (star ∷ dot ∷ []))) [
    | inl b ↦ let (t, e) = starts_split r (star ∷ dot ∷ []) b in below_star_at t e (rw (a, b) at m)
    | inr b ↦ elim (Bool-cases (starts r (dot ∷ []))) [
      | inl c ↦ let (t, e) = starts_split r (dot ∷ []) c in below_dot_at t e (rw (a, b, c) at m)
      | inr c ↦ elim (Bool-cases (equal h r)) [
        | inl d ↦ let e : r ≡ h = sym ((equal_iff h r).0 d) in rw e itself
        | inr d ↦ below r b c ((ends_with_iff h (dot ∷ r)).0 (rw (a, b, c, d) at m))
      ]
    ]
  ]
]
  where
    below_star_at : (t : Text) → r ≡ star ∷ dot ∷ t → ends_with h (drop 1 r) ≡ true → Covers h r
    below_star_at t e w =
        let tail : drop 1 r ≡ dot ∷ t = ap (drop 1) e in
        let i : EndsIn h (dot ∷ t) = (ends_with_iff h (dot ∷ t)).0 (rw tail at w) in
        rw e (below_star t i)

    below_dot_at : (t : Text) → r ≡ dot ∷ t → ends_with h r ≡ true → Covers h r
    below_dot_at t e w =
        let i : EndsIn h (dot ∷ t) = (ends_with_iff h (dot ∷ t)).0 (rw e at w) in
        rw e (below_dot t i)

matches_itself : (h : Text) → matches_lower h h ≡ true
unfolding matches_lower
matches_itself h = elim (Bool-cases (equal h (star ∷ []))) [
  | inl a ↦ rw (matches_lower, a) refl
  | inr a ↦ elim (Bool-cases (starts h (star ∷ dot ∷ []))) [
    | inl b ↦
        let w : ends_with h (drop 1 h) ≡ true =
          (ends_with_iff h (drop 1 h)).1 (take 1 h, sym (take-append-drop 1 h)) in
        rw (matches_lower, a, b, w) refl
    | inr b ↦ elim (Bool-cases (starts h (dot ∷ []))) [
      | inl c ↦
          let w : ends_with h h ≡ true = (ends_with_iff h h).1 ([], refl) in
          rw (matches_lower, a, b, c, w) refl
      | inr c ↦
          let w : equal h h ≡ true = (equal_iff h h).1 refl in rw (matches_lower, a, b, c, w) refl
    ]
  ]
]

Covers-matches_lower : (h r : Text) → Covers h r → matches_lower h r ≡ true
unfolding matches_lower equal starts
Covers-matches_lower h r everything = refl
Covers-matches_lower h r (below_star t i) = (ends_with_iff h (dot ∷ t)).1 i
Covers-matches_lower h r (below_dot t i) = (ends_with_iff h (dot ∷ t)).1 i
Covers-matches_lower h r itself = matches_itself h
Covers-matches_lower h _ (below r b c i) =
    let w : ends_with h (dot ∷ r) ≡ true = (ends_with_iff h (dot ∷ r)).1 i in
    elim (Bool-cases (equal r (star ∷ []))) [
      | inl a ↦ rw (a) refl
      | inr a ↦ elim (Bool-cases (equal h r)) [
        | inl d ↦ rw (a, b, c, d) refl
        | inr d ↦ rw (a, b, c, d, w) refl
      ]
    ]

-- What routes a request that is not for loopback, by the mode: everything, what no rule covers, or what
-- a rule covers and what comes from a listed tab.
abbrev pub Routed : SplitTunnelMode → Type 0 → Bool → Type 0
Routed all covered from_tab = Unit
Routed bypass covered from_tab = ¬ covered
Routed only covered from_tab = covered ⊎ (from_tab ≡ true)

Routed-iff :
    (mode : SplitTunnelMode) (local from_tab matched : Bool) (C : Type 0)
    → (matched ≡ true) ↔ C
    → ((if local
          then false
          else if is_only mode && from_tab
          then true
          else if local
          then false
          else by_mode mode matched)
        ≡ true)
      ↔ ((local ≡ false) × Routed mode C from_tab)
Routed-iff mode true from_tab matched C iff = ((λ h. absurd cc), (λ h. absurd (let e = h.0 in cc)))
Routed-iff all false from_tab matched C iff = ((λ h. (refl, tt)), (λ h. refl))
Routed-iff bypass false from_tab true C iff = ((λ h. absurd cc), (λ h. absurd (h.1 (iff.0 refl))))
Routed-iff bypass false from_tab false C iff =
    ((λ h. (refl, λ c. absurd (let e = iff.1 c in cc))), (λ h. refl))
Routed-iff only false true matched C iff = ((λ h. (refl, inr refl)), (λ h. refl))
Routed-iff only false false true C iff = ((λ h. (refl, inl (iff.0 refl))), (λ h. refl))
Routed-iff only false false false C iff =
    ((λ h. absurd cc), (λ h. absurd (elim h.1 [ inl c ↦ let e = iff.1 c in cc | inr e ↦ cc ])))

module _ (lower : Text → Text) where
  -- Some rule covers the host, case aside.
  abbrev pub Covered : Text → List Text → Type 0
  Covered host [] = ⊥
  Covered host (rule ∷ rules) = Covers (lower host) (lower rule) ⊎ Covered host rules

  some_rule_iff :
      (host : Text) (rules : List Text) → (some_rule lower host rules ≡ true) ↔ Covered host rules
  unfolding some_rule host_matches_rule
  some_rule_iff host [] = ((λ h. absurd cc), (λ h. absurd h))
  some_rule_iff host (rule ∷ rules) =
      let ih = some_rule_iff host rules in
      elim (Bool-cases (matches_lower (lower host) (lower rule))) [
        | inl e ↦ rw e ((λ h. inl (matches_lower-Covers (lower host) (lower rule) e)), (λ h. refl))
        | inr e ↦ rw e (
          (λ h. inr (ih.0 h)),
          (λ h. elim h [
            | inl c ↦ absurd (let k = Covers-matches_lower (lower host) (lower rule) c in cc)
            | inr c ↦ ih.1 c
          ]),
        )
      ]

  -- A request follows the tunnel exactly when its host is not loopback and its mode routes it: `all`
  -- every one, `bypass` those whose host no rule covers, and `only` those whose host a rule covers or
  -- whose tab is listed. A rule covers its own domain and the hosts below it, and with a leading `.` or
  -- `*.` the hosts that end in it.
  pub should_tunnel_request_iff :
      (request : TunnelRequest) (config : SplitTunnelConfig)
      → (should_tunnel_request lower request config ≡ true) ↔ (
          (is_loopback lower request.host ≡ false)
          × Routed config.mode
              (Covered request.host config.rules)
              (has_tab request.tab_id config.tabs))
  unfolding should_tunnel_request should_tunnel_host
  should_tunnel_request_iff request config =
      Routed-iff config.mode (is_loopback lower request.host) (has_tab request.tab_id config.tabs)
        (some_rule lower request.host config.rules) (Covered request.host config.rules)
        (some_rule_iff request.host config.rules)
