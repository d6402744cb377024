-- ===== src/Tokens/Walk/End.antt =====
-- How a walk ends, and what it leaves held.
use Prim.Native.String.{String}
use warren_sdk_ts.Prelude.{
  In, ℕ, ◌+◌, ◌≤◌, ◌≡◌, ◌≢◌, ◌↔◌, none, refl, inl, inr, List, [], ◌∷◌, Option, some, true, false,
  Bool-cases, Option-cases, length, take, length-take, arith,
}
use warren_sdk_ts.Wire.Control.{ControlMessage, rejected}
use warren_sdk_ts.Tokens.Store.{Bytes}
use warren_sdk_ts.Tokens.Manager.{TokenManager, SessionTokenLease, claim, release}
use warren_sdk_ts.Tokens.Manager.Stack.{release-claim}
use warren_sdk_ts.Tokens.Manager.Refresh.{Failure, Answer, answered, threw}
use warren_sdk_ts.Tokens.Walk.{
  SessionAttempt, Walked, ended, broken, no_session_token, WalkState, is_rejected,
  max_session_tokens, answer_walk, walk_tokens, walk_session_tokens,
}

module _ {World Text Float A : Type 0} (sha256 : Bytes → Bytes) (bytes_to_hex : Bytes → String)
    (attempt : World
      → Bytes
      → Option SessionTokenLease
      → World × Answer (SessionAttempt Text Float A))
    (close : World → SessionAttempt Text Float A → World) where
  -- The ends of a walk over `tokens` by a manager that stood at `m`, with a bound on the refusals: on
  -- a token of the walk that was not rejected and that the session now holds, or with nothing held
  -- that was not held before.
  pub data End (m : TokenManager) (tokens : List Bytes) (bound : ℕ)
      : TokenManager → Walked Text Float A → Type 0 where
    on_token :
        (a : SessionAttempt Text Float A) (token : Bytes) (lease : SessionTokenLease)
        (after : TokenManager)
        → In token tokens
        → is_rejected a.control ≡ false
        → claim sha256 bytes_to_hex token m ≡ some (lease, after)
        → End m tokens bound after (ended a token (some lease))
    on_error : (x : Failure) → End m tokens bound m (broken x)
    on_none : (refused : ℕ) → refused ≤ bound → End m tokens bound m (no_session_token refused)

  -- What happens at each token of a walk, from a state of the world, with the manager at `m` and so many
  -- refusals before it: a token whose serial a live session holds is passed over; any other is claimed
  -- and presented, and an attempt that throws ends the walk with the manager as it was, one that is
  -- rejected is closed and gives the claim back, and any other ends the walk with the claim held.
  pub data Walks (m : TokenManager)
      : List Bytes → ℕ → World → World → TokenManager → Walked Text Float A → Type 0 where
    exhausted : (refused : ℕ) (w : World) → Walks m [] refused w w m (no_session_token refused)
    passed_over :
        {token : Bytes} {tokens : List Bytes} {refused : ℕ} {w v : World} {after : TokenManager}
        {r : Walked Text Float A}
        → claim sha256 bytes_to_hex token m ≡ none
        → Walks m tokens refused w v after r
        → Walks m (token ∷ tokens) refused w v after r
    turned_down :
        {token : Bytes} {tokens : List Bytes} {refused : ℕ} {w v : World} {after : TokenManager}
        {r : Walked Text Float A} (lease : SessionTokenLease) (held : TokenManager) (u : World)
        (a : SessionAttempt Text Float A)
        → claim sha256 bytes_to_hex token m ≡ some (lease, held)
        → attempt w token (some lease) ≡ (u, answered a)
        → a.control ≡ rejected
        → Walks m tokens (refused + 1) (close u a) v after r
        → Walks m (token ∷ tokens) refused w v after r
    admitted :
        {token : Bytes} {tokens : List Bytes} {refused : ℕ} {w : World} (lease : SessionTokenLease)
        (held : TokenManager) (u : World) (a : SessionAttempt Text Float A)
        → claim sha256 bytes_to_hex token m ≡ some (lease, held)
        → attempt w token (some lease) ≡ (u, answered a)
        → a.control ≢ rejected
        → Walks m (token ∷ tokens) refused w u held (ended a token (some lease))
    failed :
        {token : Bytes} {tokens : List Bytes} {refused : ℕ} {w : World} (lease : SessionTokenLease)
        (held : TokenManager) (u : World) (x : Failure)
        → claim sha256 bytes_to_hex token m ≡ some (lease, held)
        → attempt w token (some lease) ≡ (u, threw x)
        → Walks m (token ∷ tokens) refused w u m (broken x)

  is_rejected_iff : (c : ControlMessage Text Float) → (is_rejected c ≡ true) ↔ (c ≡ rejected)
  is_rejected_iff c = ground arith

  answered_Walks :
      (token : Bytes) (tokens : List Bytes) (refused : ℕ) (lease : SessionTokenLease)
      (m held : TokenManager) (w : World)
      → claim sha256 bytes_to_hex token m ≡ some (lease, held)
      → ((u : World)
          → let r =
              walk_tokens sha256 bytes_to_hex true attempt close tokens
                (refused + 1)
                (record { world = u; manager = m }) in
            Walks m tokens (refused + 1) u r.0.world r.0.manager r.1)
      → (r : World × Answer (SessionAttempt Text Float A)) → attempt w token (some lease) ≡ r
      → let e =
          answer_walk sha256 bytes_to_hex true attempt close token
            (some lease)
            (walk_tokens sha256 bytes_to_hex true attempt close tokens)
            refused
            held
            r in
        Walks m (token ∷ tokens) refused w e.0.world e.0.manager e.1
  unfolding answer_walk
  answered_Walks token tokens refused lease m held w c next (u, threw x) h =
      rw back (failed lease held u x c h)
    where
      back : (release lease held).1 ≡ m
      back = (release-claim sha256 bytes_to_hex token m lease held m c).0
  answered_Walks token tokens refused lease m held w c next (u, answered a) h =
      elim (Bool-cases (is_rejected a.control)) [
        | inl e ↦
            rw (answer_walk, e, back)
              (turned_down lease held u a c h ((is_rejected_iff a.control).0 e) (next (close u a)))
        | inr e ↦
            rw (answer_walk, e)
              (admitted lease held u a c h
                (λ q. absurd (let f = (is_rejected_iff a.control).1 q in cc)))
      ]
    where
      back : (release lease held).1 ≡ m
      back = (release-claim sha256 bytes_to_hex token m lease held m c).0

  walk_tokens-Walks :
      (tokens : List Bytes) (refused : ℕ) (s : WalkState World)
      → let e = walk_tokens sha256 bytes_to_hex true attempt close tokens refused s in
        Walks s.manager tokens refused s.world e.0.world e.0.manager e.1
  unfolding walk_tokens
  walk_tokens-Walks [] refused s = exhausted refused s.world
  walk_tokens-Walks (token ∷ tokens) refused s =
      elim (Option-cases (claim sha256 bytes_to_hex token s.manager)) [
        | inl e ↦ rw e (passed_over e (walk_tokens-Walks tokens refused s))
        | inr ((lease, held), e) ↦ rw e (
            answered_Walks token tokens refused lease s.manager held s.world e
              (λ u.
                walk_tokens-Walks tokens (refused + 1) (record { world = u; manager = s.manager }))
              (attempt s.world token (some lease)) refl)
      ]

  later :
      {m after : TokenManager} {tokens : List Bytes} {bound : ℕ} {w : Walked Text Float A}
      (token : Bytes) (more : ℕ)
      → bound ≤ more
      → End m tokens bound after w
      → End m (token ∷ tokens) more after w
  later token more h (on_token a u lease after i r c) = on_token a u lease after (inr i) r c
  later token more h (on_error x) = on_error x
  later token more h (on_none refused b) = on_none refused (omega arith)

  -- After an attempt: `next` walks the rest.
  answered_End :
      (token : Bytes) (tokens : List Bytes) (refused : ℕ) (lease : SessionTokenLease)
      (m held : TokenManager)
      → claim sha256 bytes_to_hex token m ≡ some (lease, held)
      → ((w : World)
          → let r =
              walk_tokens sha256 bytes_to_hex true attempt close tokens
                (refused + 1)
                (record { world = w; manager = m }) in
            End m tokens (refused + 1 + length tokens) r.0.manager r.1)
      → (r : World × Answer (SessionAttempt Text Float A))
      → let e =
          answer_walk sha256 bytes_to_hex true attempt close token
            (some lease)
            (walk_tokens sha256 bytes_to_hex true attempt close tokens)
            refused
            held
            r in
        End m (token ∷ tokens) (refused + length (token ∷ tokens)) e.0.manager e.1
  unfolding answer_walk
  answered_End token tokens refused lease m held c next (w, threw x) = rw back (on_error x)
    where
      back : (release lease held).1 ≡ m
      back = (release-claim sha256 bytes_to_hex token m lease held m c).0
  answered_End token tokens refused lease m held c next (w, answered a) =
      elim (Bool-cases (is_rejected a.control)) [
        | inl e ↦
            rw (answer_walk, e, back)
              (later token (refused + length (token ∷ tokens)) bound (next (close w a)))
        | inr e ↦ rw (answer_walk, e) (on_token a token lease held (inl refl) e c)
      ]
    where
      back : (release lease held).1 ≡ m
      back = (release-claim sha256 bytes_to_hex token m lease held m c).0

      bound : refused + 1 + length tokens ≤ refused + length (token ∷ tokens)
      bound = omega arith

  walk_tokens-End :
      (tokens : List Bytes) (refused : ℕ) (s : WalkState World)
      → let e = walk_tokens sha256 bytes_to_hex true attempt close tokens refused s in
        End s.manager tokens (refused + length tokens) e.0.manager e.1
  unfolding walk_tokens
  walk_tokens-End [] refused s = on_none refused (omega arith)
  walk_tokens-End (token ∷ tokens) refused s =
      elim (Option-cases (claim sha256 bytes_to_hex token s.manager)) [
        | inl e ↦ rw e (
            later token (refused + length (token ∷ tokens)) bound
              (walk_tokens-End tokens refused s))
        | inr ((lease, held), e) ↦ rw e (
            answered_End token tokens refused lease s.manager held e
              (λ w.
                walk_tokens-End tokens (refused + 1) (record { world = w; manager = s.manager }))
              (attempt s.world token (some lease)))
      ]
    where
      bound : refused + length tokens ≤ refused + length (token ∷ tokens)
      bound = omega arith

  -- A walk that claims goes through the first eight tokens of a stack in their order, and presents each
  -- that no live session holds, as `Walks` says, until an attempt is not rejected. It ends on a token
  -- of those that the exit did not reject, which the session then holds, having been free before; with
  -- the error of an attempt; or with at most eight refusals. In the last two the manager is as it was
  -- before the walk: every lease of a refused or failed attempt has been released.
  pub walk_session_tokens-End :
      (stack : List Bytes) (s : WalkState World)
      → let e = walk_session_tokens sha256 bytes_to_hex true attempt close stack s in
        Walks s.manager (take max_session_tokens stack) 0 s.world e.0.world e.0.manager e.1
        × End s.manager (take max_session_tokens stack) max_session_tokens e.0.manager e.1
  unfolding walk_session_tokens
  walk_session_tokens-End stack s = (
    walk_tokens-Walks (take max_session_tokens stack) 0 s,
    wider bound (walk_tokens-End (take max_session_tokens stack) 0 s),
  )
    where
      bound : 0 + length (take max_session_tokens stack) ≤ max_session_tokens
      bound = omega (arith, length-take max_session_tokens stack)

      wider :
          {m after : TokenManager} {tokens : List Bytes} {b c : ℕ} {w : Walked Text Float A}
          → b ≤ c
          → End m tokens b after w
          → End m tokens c after w
      wider h (on_token a u lease after i r c) = on_token a u lease after i r c
      wider h (on_error x) = on_error x
      wider h (on_none refused b) = on_none refused (omega arith)
