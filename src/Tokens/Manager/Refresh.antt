-- ===== src/Tokens/Manager/Refresh.antt =====
-- packages/core/src/edge/token-manager.ts: `refresh`, the pass that registers the device and mints the
-- epochs that are not settled. While a request is out, other calls may change the manager, so the
-- answer to a request brings the manager as it then stands. The issuer, the registry and the minting of
-- one epoch (`mintEpoch`) are the transport, a parameter; `World` is its state.
pub mod Fair
pub mod Safety
pub mod Ledger
use Prim.Native.String.{String}
use text.Mathlib.Text.{◌==◌ as str_eq}
use warren_sdk_ts.Prelude.{
  ℕ, ◌/◌, List, [], ◌∷◌, ◌++◌, Option, none, some, Bool, true, false, not, ◌&&◌, ◌||◌, leb, ◌==◌,
  if◌then◌else◌,
}
use warren_sdk_ts.Tokens.Store.{Bytes, tokens_of, set_tokens, prune_before, settled_from, has_epoch}
use warren_sdk_ts.Tokens.Manager.{TokenManager, DeviceRegistration, persist, revoke}

-- A thrown error: `WarrenApiError`, `WarrenEdgeError`, or another.
pub data Failure : Type 0 where
  api : (code : String) (status : Option ℕ) → Failure
  edge : (code : String) (reject_reason : Option String) → Failure
  other : Failure

pub data Answer (A : Type 0) : Type 0 where
  answered : A → Answer A
  threw : Failure → Answer A

-- Of a key of the directory, its epoch.
pub record TokenIssuerDirectory : Type 0 where
  pub epoch_secs : ℕ
  pub quota_per_epoch : ℕ
  pub keys : List ℕ

pub record Reply (World A : Type 0) : Type 0 where
  pub world : World
  pub manager : TokenManager
  pub answer : Answer A

-- The registry answers the name that it keeps; a minting takes the epoch, the count, the blinding key
-- and the device's id, and answers serialized tokens.
pub record TokenTransport (World : Type 0) : Type 0 where
  pub get_directory : World → TokenManager → Reply World TokenIssuerDirectory
  pub register_device : World → TokenManager → DeviceRegistration → Reply World String
  pub mint_epoch :
      World
      → TokenManager
      → TokenIssuerDirectory
      → ℕ
      → ℕ
      → Bytes
      → Option String
      → Reply World (List Bytes)

-- `registered` is `pass.registered`: the pass has registered the device once more.
pub record PassState (World : Type 0) : Type 0 where
  pub world : World
  pub manager : TokenManager
  pub registered : Bool

unfoldable pub adopt : String → TokenManager → TokenManager
adopt name m = elim m.device [
  | none ↦ m
  | some d ↦
      if str_eq d.name name
      then m
      else record m { device = some (record d { name = name }); renames = m.renames ++ (name ∷ []) }
]

unfoldable pub begin_pass : TokenIssuerDirectory → ℕ → TokenManager → TokenManager
begin_pass directory current m = record m {
  store = prune_before current m.store;
  settled = settled_from current m.settled;
  epoch_secs = some directory.epoch_secs;
}

unfoldable pub settle : ℕ → TokenManager → TokenManager
settle epoch m = record m { settled = epoch ∷ m.settled }

-- A revocation answered while the batch was in flight wins.
unfoldable pub stock : ℕ → List Bytes → TokenManager → TokenManager
unfolding settle
stock epoch tokens m = if m.revoked then m else record (settle epoch m) {
  store = set_tokens epoch (tokens_of epoch m.store ++ tokens) m.store;
}

unfoldable pub answers_every_epoch : String → Bool
answers_every_epoch code = str_eq code "device_unregistered" || str_eq code "device_limit_reached"

abbrev pub is_unauthorized : Option ℕ → Bool
is_unauthorized none = false
is_unauthorized (some status) = status == 401

abbrev pub is_already_issued : Option String → Bool
is_already_issued none = false
is_already_issued (some reason) = str_eq reason "already_issued"

abbrev pub is_unregistered : Failure → Bool
is_unregistered (api code status) = str_eq code "device_unregistered"
is_unregistered (edge code reason) = false
is_unregistered other = false

unfoldable pub current_epoch : TokenIssuerDirectory → ℕ → Answer ℕ
current_epoch directory now =
    if directory.epoch_secs == 0
    then threw (edge "token_issuer" none)
    else answered (now / directory.epoch_secs)

unfoldable pub targets : List ℕ → ℕ → List ℕ → List ℕ
targets [] current settled = []
targets (e ∷ keys) current settled =
    let rest = targets keys current settled in
    if leb current e && not (has_epoch e settled) then e ∷ rest else rest

abbrev pub Pass : Type 0 → Type 0 → Type 0
Pass World A = PassState World → PassState World × Answer A

abbrev pub throw : {World A : Type 0} → Failure → Pass World A
throw x s = (s, threw x)

abbrev pub return : {World A : Type 0} → A → Pass World A
return a s = (s, answered a)

-- `try` with what follows it and its `catch`
abbrev pub settle_with :
    {World A B : Type 0}
    → PassState World × Answer A
    → (A → Pass World B)
    → (Failure → Pass World B)
    → PassState World × Answer B
settle_with (s, answered a) f g = f a s
settle_with (s, threw x) f g = g x s

abbrev pub try :
    {World A B : Type 0}
    → Pass World A
    → (A → Pass World B)
    → (Failure → Pass World B)
    → Pass World B
try p f g s = settle_with (p s) f g

infixl 20 ◌>>=◌
abbrev pub ◌>>=◌ : {World A B : Type 0} → Pass World A → (A → Pass World B) → Pass World B
(p >>= f) s = try p f throw s

infixl 20 ◌>>◌
abbrev pub ◌>>◌ : {World A B : Type 0} → Pass World A → Pass World B → Pass World B
(p >> q) s = try p (λ a. q) throw s

abbrev pub modify : {World : Type 0} → (TokenManager → TokenManager) → Pass World (Unit {0})
modify f s = (record s { manager = f s.manager }, answered tt)

abbrev pub from_answer : {World A : Type 0} → Answer A → Pass World A
from_answer r s = (s, r)

abbrev pub replied :
    {World A : Type 0} → PassState World → Reply World A → PassState World × Answer A
replied s r = (record s { world = r.world; manager = r.manager }, r.answer)

module _ {World : Type 0} (transport : TokenTransport World) where
  unfoldable pub register : DeviceRegistration → Pass World String
  register device s = replied s (transport.register_device s.world s.manager device)

  unfoldable pub fetch_directory : Pass World TokenIssuerDirectory
  fetch_directory s = replied s (transport.get_directory s.world s.manager)

  unfoldable pub mint : TokenIssuerDirectory → ℕ → Bytes → Option String → Pass World (List Bytes)
  mint directory epoch key id s =
      replied s
        (transport.mint_epoch s.world s.manager directory epoch directory.quota_per_epoch key id)

  unfoldable pub on_registration_error : Failure → Pass World (Unit {0})
  on_registration_error (api code status) =
      if str_eq code "device_revoked"
      then modify revoke >> throw (api code status)
      else if str_eq code "device_limit_reached"
      then throw (api code status)
      else return tt
  on_registration_error (edge code reason) = return tt
  on_registration_error other = return tt

  unfoldable pub register_at_start : Option DeviceRegistration → Pass World (Unit {0})
  register_at_start none = return tt
  register_at_start (some device) =
      try (register device) (λ name. modify (adopt name)) on_registration_error

  unfoldable pub mark_registered : Pass World (Unit {0})
  mark_registered s = (record s { registered = true }, answered tt)

  abbrev pub id_of : Option DeviceRegistration → Option String
  id_of none = none
  id_of (some device) = some device.device_id

  unfoldable pub register_again :
      TokenIssuerDirectory → ℕ → Bytes → DeviceRegistration → Pass World (List Bytes)
  register_again directory epoch key device = register device >>= λ name.
      modify (adopt name) >> mint directory epoch key (some device.device_id)

  -- The `catch` of `mintAsDevice`
  unfoldable pub mint_again :
      TokenIssuerDirectory
      → ℕ
      → Bytes
      → Option DeviceRegistration
      → Failure
      → Pass World (List Bytes)
  mint_again directory epoch key none x s = throw x s
  mint_again directory epoch key (some device) x s =
      (if not (is_unregistered x) || s.registered
          then throw x
          else mark_registered >> register_again directory epoch key device)
        s

  unfoldable pub mint_as_device : TokenIssuerDirectory → ℕ → Bytes → Pass World (List Bytes)
  mint_as_device directory epoch key s =
      try (mint directory epoch key (id_of s.manager.device)) return
        (mint_again directory epoch key s.manager.device) s

  -- The `catch` of one epoch
  unfoldable pub on_mint_error : ℕ → Failure → Pass World (Unit {0})
  on_mint_error epoch (api code status) =
      if str_eq code "device_revoked"
      then modify revoke >> throw (api code status)
      else if is_unauthorized status || answers_every_epoch code
      then modify persist >> throw (api code status)
      else return tt
  on_mint_error epoch (edge code reason) =
      if is_already_issued reason then modify (settle epoch) else return tt
  on_mint_error epoch other = return tt

  unfoldable pub mint_all : TokenIssuerDirectory → Bytes → List ℕ → Pass World (Unit {0})
  mint_all directory key [] = modify persist
  mint_all directory key (epoch ∷ epochs) =
      let rest = mint_all directory key epochs in
      try (mint_as_device directory epoch key) (λ tokens. modify (stock epoch tokens))
        (on_mint_error epoch)
      >> rest

  unfoldable pub mint_targets : TokenIssuerDirectory → Bytes → ℕ → Pass World (Unit {0})
  mint_targets directory key current s =
      mint_all directory key (targets directory.keys current s.manager.settled) s

  unfoldable pub refresh_with : Bytes → ℕ → Pass World (Unit {0})
  refresh_with key now s =
      (register_at_start s.manager.device
          >> (fetch_directory >>= λ directory.
              from_answer (current_epoch directory now) >>= λ current.
              modify (begin_pass directory current) >> mint_targets directory key current))
        s

  abbrev pub start : World → TokenManager → PassState World
  start world m = record { world = world; manager = m; registered = false }

  unfoldable pub refresh : ℕ → World → TokenManager → PassState World × Answer (Unit {0})
  refresh now world m = elim m.blinding_key [
    | none ↦ (start world m, threw (edge "no_blinding_key" none))
    | some key ↦
        if m.revoked
        then (start world m, threw (api "device_revoked" (some 403)))
        else refresh_with key now (start world m)
  ]
