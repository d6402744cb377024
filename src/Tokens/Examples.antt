-- ===== src/Tokens/Examples.antt =====
-- The theorems on session tokens at concrete inputs.
use Prim.Native.String.{String}
use warren_sdk_ts.Prelude.{
  In, ℕ, zero, suc, ◌+◌, ◌≡◌, ◌≢◌, ◌↔◌, refl, List, [], ◌∷◌, Option, none, some, true, false, ◌==◌,
  ◌&&◌, ◌||◌, take, get_or, if◌then◌else◌,
}
use warren_sdk_ts.Wire.Control.{rejected, ip_exhausted}
use warren_sdk_ts.Tokens.Store.{Bytes, has_epoch, has_key}
use warren_sdk_ts.Tokens.Manager.{
  TokenManager, SessionTokenLease, token_serial, serial, session_stack, claim, epoch_at,
}
use warren_sdk_ts.Tokens.Manager.Stack.{
  current_tokens, IsUsable, session_stack_iff, claim-session_stack,
}
use warren_sdk_ts.Tokens.Manager.Sound.{IsSound}
use warren_sdk_ts.Tokens.Manager.Refresh.{
  api, edge, Answer, answered, threw, TokenIssuerDirectory, TokenTransport, PassState, refresh,
  mint_all, answers_every_epoch,
}
use warren_sdk_ts.Tokens.Manager.Refresh.Fair.{IsFair, idle, revoked}
use warren_sdk_ts.Tokens.Manager.Refresh.Safety.{refresh-IsSound}
use warren_sdk_ts.Tokens.Manager.Refresh.Ledger.{is_definitive, IsSteady, mint_all-settled}
use warren_sdk_ts.Tokens.Walk.{SessionAttempt, max_session_tokens, walk_session_tokens}
use warren_sdk_ts.Tokens.Walk.End.{Walks, End, walk_session_tokens-End}
use warren_sdk_ts.Tokens.Manager.{persist, revoke}

abbrev fill : ℕ → ℕ → Bytes
fill zero b = []
fill (suc n) b = b ∷ fill n b

-- A token of the blind-RSA type whose bytes are `b`.
abbrev token : ℕ → Bytes
token b = 0 ∷ 2 ∷ fill 352 b

-- The first byte of the nonce in place of a hash, and a name for it.
abbrev nonce_byte : Bytes → Bytes
nonce_byte bytes = get_or bytes 2 0 ∷ []

abbrev hex : Bytes → String
hex bytes = if get_or bytes 0 0 == 1 then "01" else "02"

abbrev manager : TokenManager
manager = record {
  store = (7, token 1 ∷ token 2 ∷ []) ∷ [];
  settled = [];
  epoch_secs = some 10;
  held = [];
  rotation = 3;
  blinding_key = some (1 ∷ []);
  device = none;
  renames = [];
  revoked = false;
  saved = none;
}

session_stack_iff_example :
    In (token 2) (session_stack nonce_byte hex manager 75)
    ↔ (IsUsable nonce_byte hex [] (token 2) × In (token 2) (current_tokens manager 75))
session_stack_iff_example = session_stack_iff nonce_byte hex manager 75 (token 2)

abbrev holder : TokenManager
holder = record manager { held = "01" ∷ [] }

abbrev lease : SessionTokenLease
lease = record { key = "01"; live = true }

test_claim : claim nonce_byte hex (token 1) manager ≡ some (lease, holder)
unfolding claim token_serial has_key
test_claim = refl

claim-session_stack_example : In (token 1) (session_stack nonce_byte hex holder 75) ↔ (
    In (token 1) (session_stack nonce_byte hex manager 75)
    × (serial nonce_byte hex (token 1) ≢ serial nonce_byte hex (token 1)))
claim-session_stack_example =
    claim-session_stack nonce_byte hex (token 1) manager lease holder 75 (token 1) test_claim

test_epoch_at : epoch_at manager 75 ≡ some 7
unfolding epoch_at
test_epoch_at = refl

-- An issuer that grants epoch 7, has granted epoch 8 before and fails on the others.
abbrev issuer : ℕ → Answer (List Bytes)
issuer epoch =
    if epoch == 7
    then answered (token 3 ∷ [])
    else if epoch == 8
    then threw (edge "token_issuer" (some "already_issued"))
    else threw (api "server" (some 503))

abbrev directory : TokenIssuerDirectory
directory = record { epoch_secs = 10; quota_per_epoch = 1; keys = 7 ∷ 8 ∷ 9 ∷ [] }

abbrev steady : TokenTransport (Unit {0})
steady = record {
  get_directory = λ w m. record { world = w; manager = m; answer = answered directory };
  register_device = λ w m d. record { world = w; manager = m; answer = answered d.name };
  mint_epoch = λ w m d epoch count key id. record { world = w; manager = m; answer = issuer epoch };
}

steady-IsSteady : IsSteady steady issuer
steady-IsSteady = record {
  same_manager = λ w m d epoch count key id. refl;
  same_answer = λ w m d epoch count key id. refl;
}

abbrev at_start : PassState (Unit {0})
at_start = record { world = tt; manager = manager; registered = false }

mint_all-settled_example :
    ((mint_all steady directory (1 ∷ []) (7 ∷ 8 ∷ 9 ∷ []) at_start).1 ≡ answered tt)
    × (has_epoch 8 (mint_all steady directory (1 ∷ []) (7 ∷ 8 ∷ 9 ∷ []) at_start).0.manager.settled
        ≡ (has_epoch 8 [] || (has_epoch 8 (7 ∷ 8 ∷ 9 ∷ []) && is_definitive (issuer 8))))
unfolding has_epoch answers_every_epoch
mint_all-settled_example =
    mint_all-settled steady issuer directory (1 ∷ []) (7 ∷ 8 ∷ 9 ∷ []) at_start 8 steady-IsSteady
      (record { not_revoked = refl; no_device = refl }) (refl, (refl, (refl, tt)))

-- A transport during whose mintings another pass hears of a revocation.
abbrev revoking : TokenTransport (Unit {0})
revoking = record {
  get_directory = λ w m. record { world = w; manager = m; answer = answered directory };
  register_device = λ w m d. record { world = w; manager = m; answer = answered d.name };
  mint_epoch =
      λ w m d epoch count key id. record { world = w; manager = revoke m; answer = issuer epoch };
}

revoking-IsFair : IsFair revoking
revoking-IsFair = record {
  fair_directory = λ w m. idle;
  fair_register = λ w m d. idle;
  fair_mint = λ w m d epoch count key id. revoked idle;
}

manager-IsSound : IsSound manager
manager-IsSound r = cc

refresh-IsSound_example :
    IsSound (refresh revoking 75 tt manager).0.manager
    × (false ≡ true → (refresh revoking 75 tt manager).0.manager.revoked ≡ true)
refresh-IsSound_example = refresh-IsSound revoking revoking-IsFair 75 tt manager manager-IsSound

-- An exit that refuses the first token and has no address for the second.
abbrev attempt :
    ℕ → Bytes → Option SessionTokenLease → ℕ × Answer (SessionAttempt String ℕ (Unit {0}))
attempt w t hold =
    if get_or t 2 0 == 1
    then (w + 1, answered (record { control = rejected; connection = tt }))
    else (w + 1, answered (record { control = ip_exhausted; connection = tt }))

abbrev close : ℕ → SessionAttempt String ℕ (Unit {0}) → ℕ
close w a = w

walk_session_tokens-End_example :
    let e =
      walk_session_tokens nonce_byte hex true attempt close
        (token 1 ∷ token 2 ∷ [])
        (record { world = 0; manager = manager }) in
    Walks nonce_byte hex attempt close manager
      (take max_session_tokens (token 1 ∷ token 2 ∷ []))
      0
      0
      e.0.world
      e.0.manager
      e.1
    × End nonce_byte hex attempt close manager
        (take max_session_tokens (token 1 ∷ token 2 ∷ []))
        max_session_tokens
        e.0.manager
        e.1
walk_session_tokens-End_example =
    walk_session_tokens-End nonce_byte hex attempt close (token 1 ∷ token 2 ∷ [])
      (record { world = 0; manager = manager })

abbrev revoked_manager : TokenManager
revoked_manager = revoke (persist manager)

revoked_saved : revoked_manager.saved ≡ some (record { v = 1; epoch_secs = 10; epochs = [] })
unfolding revoke persist
revoked_saved = refl
