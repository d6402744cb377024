-- ===== src/Tokens/Manager/Stack.antt =====
-- What a session may present: `sessionStack`, `claim`, `release` and `takeCurrentStack`.
use Prim.Native.String.{String}
use text.Mathlib.Text.{◌==◌ as str_eq}
use text.Mathlib.TextEquality.{eq_iff}
use warren_sdk_ts.Prelude.{
  ℕ, ◌%◌, ◌≡◌, refl, ap, sym, ◌∙◌, ◌≢◌, ◌↔◌, inl, inr, List, [], ◌∷◌, ◌++◌, Option, none, some,
  true, false, not, Bool-cases, Option-cases, length, take, drop, take-append-drop, In,
}
use warren_sdk_ts.Tokens.Store.{Bytes, tokens_of, has_key, delete_key, delete_key-absent}
use warren_sdk_ts.Tokens.Manager.{
  TokenManager, SessionTokenLease, serial, is_free, filter_free, rotate, session_stack, claim,
  release, epoch_at,
}

In-left : (t : Bytes) (us vs : List Bytes) → In t us → In t (us ++ vs)
In-left t [] vs h = absurd h
In-left t (u ∷ us) vs (inl e) = inl e
In-left t (u ∷ us) vs (inr h) = inr (In-left t us vs h)

In-right : (t : Bytes) (us vs : List Bytes) → In t vs → In t (us ++ vs)
In-right t [] vs h = h
In-right t (u ∷ us) vs h = inr (In-right t us vs h)

In-swap : (t : Bytes) (us vs : List Bytes) → In t (us ++ vs) → In t (vs ++ us)
In-swap t [] vs h = In-left t vs [] h
In-swap t (u ∷ us) vs (inl e) = In-right t vs (u ∷ us) (inl e)
In-swap t (u ∷ us) vs (inr h) = skip u us vs (In-swap t us vs h)
  where
    skip : (u : Bytes) (us vs : List Bytes) → In t (vs ++ us) → In t (vs ++ (u ∷ us))
    skip u us [] h = inr h
    skip u us (v ∷ vs) (inl e) = inl e
    skip u us (v ∷ vs) (inr h) = inr (skip u us vs h)

rotate_iff : (t : Bytes) (rotation : ℕ) (ts : List Bytes) → In t (rotate rotation ts) ↔ In t ts
unfolding rotate
rotate_iff t rotation [] = ((λ h. h), (λ h. h))
rotate_iff t rotation (u ∷ us) =
    let start : ℕ = rotation % length (u ∷ us) in
    let whole : take start (u ∷ us) ++ drop start (u ∷ us) ≡ u ∷ us =
      take-append-drop start (u ∷ us) in
    (
      (λ h.
          let i : In t (take start (u ∷ us) ++ drop start (u ∷ us)) =
            In-swap t (drop start (u ∷ us)) (take start (u ∷ us)) h in
          rw whole at i),
      (λ h. In-swap t (take start (u ∷ us)) (drop start (u ∷ us)) (rw whole h)),
    )

-- The tokens that the epoch of `now` has in the store.
abbrev pub current_tokens : TokenManager → ℕ → List Bytes
current_tokens m now = elim (epoch_at m now) [ none ↦ [] | some epoch ↦ tokens_of epoch m.store ]

module _ (sha256 : Bytes → Bytes) (bytes_to_hex : Bytes → String) where
  abbrev IsFree : List String → Bytes → Type 0
  IsFree held t = is_free sha256 bytes_to_hex held t ≡ true

  filter_free_iff :
      (t : Bytes) (held : List String) (ts : List Bytes)
      → In t (filter_free sha256 bytes_to_hex held ts) ↔ (IsFree held t × In t ts)
  unfolding filter_free
  filter_free_iff t held [] = ((λ h. absurd h), (λ h. h.1))
  filter_free_iff t held (u ∷ us) =
      let ih = filter_free_iff t held us in
      elim (Bool-cases (is_free sha256 bytes_to_hex held u)) [
        | inl e ↦ rw e (
          (λ h. elim h [
            | inl q ↦ (ap (is_free sha256 bytes_to_hex held) q ∙ e, inl q)
            | inr q ↦ let (f, i) = ih.0 q in (f, inr i)
          ]),
          (λ h. elim h.1 [ inl q ↦ inl q | inr q ↦ inr (ih.1 (h.0, q)) ]),
        )
        | inr e ↦ rw e (
          (λ h. let (f, i) = ih.0 h in (f, inr i)),
          (λ h. elim h.1 [ inl q ↦ absurd cc | inr q ↦ ih.1 (h.0, q) ]),
        )
      ]

  session_stack_free :
      (m : TokenManager) (now : ℕ) (t : Bytes)
      → In t (session_stack sha256 bytes_to_hex m now)
        ↔ ((is_free sha256 bytes_to_hex m.held t ≡ true) × In t (current_tokens m now))
  unfolding session_stack
  session_stack_free m now t = go (epoch_at m now)
    where
      go :
          (o : Option ℕ)
          → In t (elim o [
            | none ↦ []
            | some epoch ↦
                filter_free sha256 bytes_to_hex m.held (rotate m.rotation (tokens_of epoch m.store))
          ])
            ↔ ((is_free sha256 bytes_to_hex m.held t ≡ true)
                × In t (elim o [ none ↦ [] | some epoch ↦ tokens_of epoch m.store ]))
      go none = ((λ h. absurd h), (λ h. h.1))
      go (some epoch) =
          let filtered = filter_free_iff t m.held (rotate m.rotation (tokens_of epoch m.store)) in
          let rotated = rotate_iff t m.rotation (tokens_of epoch m.store) in
          (
            (λ h. let (f, i) = filtered.0 h in (f, rotated.0 i)),
            (λ h. filtered.1 (h.0, rotated.1 h.1)),
          )

  abbrev pub holding : String → TokenManager → TokenManager
  holding key m = record m { held = key ∷ m.held }

  -- A claim that is granted: the serial is a token's, no session holds it, and now one does.
  pub data Granted (token : Bytes) (m : TokenManager)
      : SessionTokenLease × TokenManager → Type 0 where
    granted :
        (key : String)
        → serial sha256 bytes_to_hex token ≡ some key
        → has_key key m.held ≡ false
        → Granted token m (record { key = key; live = true }, holding key m)

  pub claim-Granted :
      (token : Bytes) (m : TokenManager) (r : SessionTokenLease × TokenManager)
      → claim sha256 bytes_to_hex token m ≡ some r
      → Granted token m r
  unfolding claim
  claim-Granted token m r h = elim (Option-cases (serial sha256 bytes_to_hex token)) [
    | inl e ↦ absurd (let k = rw (claim, e) at h in cc)
    | inr (key, e) ↦ elim (Bool-cases (has_key key m.held)) [
      | inl f ↦ absurd (let k = rw (claim, e, f) at h in cc)
      | inr f ↦ let k = rw (claim, e, f) at h in rw (some-inj k) (granted key e f)
    ]
  ]
    where
      some-inj : {a b : SessionTokenLease × TokenManager} → some a ≡ some b → b ≡ a
      some-inj e = cc

  -- A token is of the length of one, and no live session holds its serial.
  pub record IsUsable (held : List String) (t : Bytes) : Type 0 where
    pub key : String
    pub has_serial : serial sha256 bytes_to_hex t ≡ some key
    pub not_held : ¬ In key held

  has_key_iff : (key : String) (held : List String) → (has_key key held ≡ true) ↔ In key held
  unfolding has_key
  has_key_iff key [] = ((λ h. absurd cc), (λ h. absurd h))
  has_key_iff key (k ∷ held) =
      let ih = has_key_iff key held in
      elim (Bool-cases (str_eq k key)) [
        | inl e ↦ rw e ((λ h. inl (sym ((eq_iff k key).0 e))), (λ h. refl))
        | inr e ↦ rw e (
          (λ h. inr (ih.0 h)),
          (λ h. elim h [
            | inl q ↦ absurd (let f = (eq_iff k key).1 (sym q) in cc)
            | inr q ↦ ih.1 q
          ]),
        )
      ]

  IsFree-IsUsable : (held : List String) (t : Bytes) → IsFree held t ↔ IsUsable held t
  unfolding is_free
  IsFree-IsUsable held t = go (serial sha256 bytes_to_hex t) refl
    where
      go :
          (o : Option String)
          → serial sha256 bytes_to_hex t ≡ o
          → (elim o [ none ↦ false | some key ↦ not (has_key key held) ] ≡ true) ↔ IsUsable held t
      go none e = ((λ h. absurd cc), (λ u. absurd (let f = u.has_serial in cc)))
      go (some key) e = elim (Bool-cases (has_key key held)) [
        | inl f ↦ rw f (
          (λ h. absurd cc),
          (λ u.
              let same : key ≡ u.key = cc (e, u.has_serial) in
              let i = (has_key_iff key held).0 f in absurd (u.not_held (rw same at i))),
        )
        | inr f ↦ rw f (
          (λ h. record {
            key = key;
            has_serial = e;
            not_held = λ i. absurd (let g = (has_key_iff key held).1 i in cc);
          }),
          (λ u. refl),
        )
      ]

  -- A token is in the stack of a session exactly when the store has it for the epoch of `now` and it has
  -- a serial, which no live session of the manager holds, whatever the rotation.
  pub session_stack_iff :
      (m : TokenManager) (now : ℕ) (t : Bytes)
      → In t (session_stack sha256 bytes_to_hex m now)
        ↔ (IsUsable m.held t × In t (current_tokens m now))
  session_stack_iff m now t =
      let stacked = session_stack_free m now t in
      let usable = IsFree-IsUsable m.held t in
      ((λ h. let (f, i) = stacked.0 h in (usable.0 f, i)), (λ h. stacked.1 (usable.1 h.0, h.1)))

  claimed-IsFree_iff :
      (key : String) (held : List String) (t : Bytes)
      → IsFree (key ∷ held) t ↔ (IsFree held t × (serial sha256 bytes_to_hex t ≢ some key))
  unfolding is_free has_key
  claimed-IsFree_iff key held t = keys (serial sha256 bytes_to_hex t)
    where
      keys :
          (o : Option String)
          → (elim o [ none ↦ false | some k ↦ not (has_key k (key ∷ held)) ] ≡ true)
            ↔ ((elim o [ none ↦ false | some k ↦ not (has_key k held) ] ≡ true) × (o ≢ some key))
      keys none = ((λ h. absurd cc), (λ h. absurd (let f = h.0 in cc)))
      keys (some k) = elim (Bool-cases (str_eq key k)) [
        | inl f ↦
            let same : key ≡ k = (eq_iff key k).0 f in
            rw f ((λ h. absurd cc), (λ h. absurd (h.1 (ap some (sym same)))))
        | inr f ↦ rw f ((λ h. (h, λ e. absurd (clash f e))), (λ h. h.0))
      ]
        where
          clash : str_eq key k ≡ false → some k ≡ some key → ⊥
          clash f e = let same : key ≡ k = cc in let t = (eq_iff key k).1 same in cc

  -- A claim takes from the stack of every other session the tokens of the claimed serial, and no
  -- other token.
  pub claim-session_stack :
      (token : Bytes) (m : TokenManager) (lease : SessionTokenLease) (after : TokenManager)
      (now : ℕ) (t : Bytes)
      → claim sha256 bytes_to_hex token m ≡ some (lease, after)
      → In t (session_stack sha256 bytes_to_hex after now) ↔ (
          In t (session_stack sha256 bytes_to_hex m now)
          × (serial sha256 bytes_to_hex t ≢ serial sha256 bytes_to_hex token))
  unfolding epoch_at
  claim-session_stack token m lease after now t h = go (claim-Granted token m (lease, after) h)
    where
      go :
          {r : SessionTokenLease × TokenManager}
          → Granted token m r
          → In t (session_stack sha256 bytes_to_hex r.1 now) ↔ (
              In t (session_stack sha256 bytes_to_hex m now)
              × (serial sha256 bytes_to_hex t ≢ serial sha256 bytes_to_hex token))
      go (granted key e f) =
          let there = session_stack_free (holding key m) now t in
          let here = session_stack_free m now t in
          let free = claimed-IsFree_iff key m.held t in
          rw e (
            (λ i. let (a, b) = there.0 i in let (c, d) = free.0 a in (here.1 (c, b), d)),
            (λ i. let (a, b) = here.0 i.0 in there.1 (free.1 (a, i.1), b)),
          )

  -- Releasing a granted claim gives the manager back as it was before the claim, and a second release
  -- of the same lease changes nothing, whoever holds the serial by then.
  pub release-claim :
      (token : Bytes) (m : TokenManager) (lease : SessionTokenLease) (after other : TokenManager)
      → claim sha256 bytes_to_hex token m ≡ some (lease, after)
      → ((release lease after).1 ≡ m) × ((release (release lease after).0 other).1 ≡ other)
  unfolding release delete_key
  release-claim token m lease after other h = go (claim-Granted token m (lease, after) h)
    where
      go :
          {r : SessionTokenLease × TokenManager}
          → Granted token m r
          → ((release r.0 r.1).1 ≡ m) × ((release (release r.0 r.1).0 other).1 ≡ other)
      go (granted key e f) =
          let same : str_eq key key ≡ true = (eq_iff key key).1 refl in
          let absent : delete_key key m.held ≡ m.held = delete_key-absent key m.held f in
          (rw (same, absent) refl, refl)
