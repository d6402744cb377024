-- ===== src/Tokens/Walk.antt =====
-- packages/core/src/edge/session-walk.ts: the walk of a session through the stack, one token per
-- setup. The connection of an attempt is a parameter; `World` is its state. The claims are those of
-- a `TokenManager`, which nothing else changes during the walk.
pub mod End
use Prim.Native.String.{String}
use warren_sdk_ts.Prelude.{
  ℕ, ◌+◌, List, [], ◌∷◌, Option, none, some, Bool, true, false, if◌then◌else◌, take,
}
use warren_sdk_ts.Wire.Control.{ControlMessage, rejected}
use warren_sdk_ts.Tokens.Store.{Bytes}
use warren_sdk_ts.Tokens.Manager.{TokenManager, SessionTokenLease, claim, release}
use warren_sdk_ts.Tokens.Manager.Refresh.{Failure, Answer, answered, threw}

abbrev pub max_session_tokens : ℕ
max_session_tokens = 8

-- `A` is the rest of an attempt, its connection.
pub record SessionAttempt (Text Float A : Type 0) : Type 0 where
  pub control : ControlMessage Text Float
  pub connection : A

-- How a walk ends: on an answered attempt, with the error of an attempt, or with `no_session_token`
-- and the number of refusals.
pub data Walked (Text Float A : Type 0) : Type 0 where
  ended :
      (attempt : SessionAttempt Text Float A) (token : Bytes) (lease : Option SessionTokenLease)
      → Walked Text Float A
  broken : Failure → Walked Text Float A
  no_session_token : (refused : ℕ) → Walked Text Float A

pub record WalkState (World : Type 0) : Type 0 where
  pub world : World
  pub manager : TokenManager

abbrev pub is_rejected : {Text Float : Type 0} → ControlMessage Text Float → Bool
is_rejected rejected = true
is_rejected x = false

abbrev pub release_lease : Option SessionTokenLease → TokenManager → TokenManager
release_lease none m = m
release_lease (some lease) m = (release lease m).1

-- `claiming` tells whether `claim` is given.
module _ {World Text Float A : Type 0} (sha256 : Bytes → Bytes) (bytes_to_hex : Bytes → String)
    (claiming : Bool)
    (attempt : World
      → Bytes
      → Option SessionTokenLease
      → World × Answer (SessionAttempt Text Float A))
    (close : World → SessionAttempt Text Float A → World) where
  abbrev pub Walk : Type 0
  Walk = ℕ → WalkState World → WalkState World × Walked Text Float A

  -- What follows an attempt that is over; `next` is the rest of the loop.
  unfoldable pub answer_walk :
      Bytes
      → Option SessionTokenLease
      → Walk
      → ℕ
      → TokenManager
      → World × Answer (SessionAttempt Text Float A)
      → WalkState World × Walked Text Float A
  answer_walk token lease next refused m (w, threw x) =
      (record { world = w; manager = release_lease lease m }, broken x)
  answer_walk token lease next refused m (w, answered a) =
      if is_rejected a.control
      then next (refused + 1) (record { world = close w a; manager = release_lease lease m })
      else (record { world = w; manager = m }, ended a token lease)

  abbrev pub present :
      Bytes
      → Option SessionTokenLease
      → Walk
      → ℕ
      → World
      → TokenManager
      → WalkState World × Walked Text Float A
  present token lease next refused w m =
      answer_walk token lease next refused m (attempt w token lease)

  abbrev pub present_claimed :
      Bytes
      → Walk
      → ℕ
      → WalkState World
      → Option (SessionTokenLease × TokenManager)
      → WalkState World × Walked Text Float A
  present_claimed token next refused s none = next refused s
  present_claimed token next refused s (some (lease, m)) =
      present token (some lease) next refused s.world m

  unfoldable pub walk_tokens : List Bytes → Walk
  walk_tokens [] refused s = (s, no_session_token refused)
  walk_tokens (token ∷ tokens) refused s =
      let next : Walk = walk_tokens tokens in
      if claiming
      then present_claimed token next refused s (claim sha256 bytes_to_hex token s.manager)
      else present token none next refused s.world s.manager

  unfoldable pub walk_session_tokens :
      List Bytes → WalkState World → WalkState World × Walked Text Float A
  walk_session_tokens stack s = walk_tokens (take max_session_tokens stack) 0 s
