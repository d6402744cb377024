-- ===== src/Tokens/Manager.antt =====
-- packages/core/src/edge/token-manager.ts: the state of a `TokenManager` and the operations that read
-- it or change it without a request; packages/core/src/edge/token.ts: `tokenSerial`. SHA-256 and the
-- hex encoder are parameters. A bundle is kept as it stands, without its JSON and base64 text.
pub mod Stack
pub mod Take
pub mod Sound
pub mod Refresh
use Prim.Native.String.{String}
use warren_sdk_ts.Prelude.{
  ℕ, ◌+◌, ◌*◌, ◌/◌, ◌%◌, ◌^◌, List, [], ◌∷◌, ◌++◌, Option, none, some, Bool, true, false, not, ltb,
  ◌==◌, if◌then◌else◌, length, get_or, take, drop,
}
use warren_sdk_ts.Tokens.Store.{
  Bytes, Stock, tokens_of, set_tokens, delete_epoch, prune_before, settled_from, has_epoch, has_key,
  delete_key,
}

abbrev pub nonce_len : ℕ
nonce_len = 32

abbrev pub challenge_digest_len : ℕ
challenge_digest_len = 32

abbrev pub token_key_id_len : ℕ
token_key_id_len = 32

abbrev pub authenticator_len : ℕ
authenticator_len = 256

abbrev pub token_len : ℕ
token_len = 2 + nonce_len + challenge_digest_len + token_key_id_len + authenticator_len

abbrev pub token_type_blind_rsa : ℕ
token_type_blind_rsa = 2

-- `tokenSerial`, in hex as every caller of it wants it
unfoldable pub token_serial :
    (sha256 : Bytes → Bytes) → (bytes_to_hex : Bytes → String) → Bytes → Option String
token_serial sha256 bytes_to_hex bytes =
    if not (length bytes == token_len)
    then none
    else if not (get_or bytes 0 0 * 2 ^ 8 + get_or bytes 1 0 == token_type_blind_rsa)
    then none
    else some (
        bytes_to_hex
          (sha256 (take (2 + nonce_len + challenge_digest_len + token_key_id_len) bytes)))

pub record DeviceRegistration : Type 0 where
  pub device_id : String
  pub name : String

abbrev pub bundle_version : ℕ
bundle_version = 1

-- What `persist` hands to `JSON.stringify`, each epoch's key before `String` and each token before
-- `base64urlnopad.encode`: the text is not modelled, nor is the load of it.
pub record PersistedBundle : Type 0 where
  pub v : ℕ
  pub epoch_secs : ℕ
  pub epochs : Stock

-- The fields that change, the persisted bundle with them, and the two fixed ones that the operations
-- read. `renames` are the names that `onDeviceName` was called with.
pub record TokenManager : Type 0 where
  pub store : Stock
  pub settled : List ℕ
  pub epoch_secs : Option ℕ
  pub held : List String
  pub rotation : ℕ
  pub blinding_key : Option Bytes
  pub device : Option DeviceRegistration
  pub renames : List String
  pub revoked : Bool
  pub saved : Option PersistedBundle

abbrev pub or_zero : Option ℕ → ℕ
or_zero none = 0
or_zero (some n) = n

unfoldable pub persist : TokenManager → TokenManager
persist m = record m {
  saved = some (record { v = bundle_version; epoch_secs = or_zero m.epoch_secs; epochs = m.store });
}

unfoldable pub revoke : TokenManager → TokenManager
unfolding persist
revoke m = persist (record m { revoked = true; store = [] })

unfoldable pub device_name : TokenManager → Option String
device_name m = elim m.device [ none ↦ none | some d ↦ some d.name ]

unfoldable pub set_device_name : String → TokenManager → TokenManager
set_device_name name m = elim m.device [
  | none ↦ m
  | some d ↦ record m { device = some (record d { name = name }) }
]

abbrev pub epoch_in : Option ℕ → ℕ → Option ℕ
epoch_in none now = none
epoch_in (some secs) now = if secs == 0 then none else some (now / secs)

unfoldable pub epoch_at : TokenManager → ℕ → Option ℕ
epoch_at m now = epoch_in m.epoch_secs now

unfoldable pub available : TokenManager → ℕ → ℕ
available m epoch = length (tokens_of epoch m.store)

-- `tokens.pop()`, the last token aside
abbrev pub init : List Bytes → List Bytes
init [] = []
init (t ∷ []) = []
init (t ∷ u ∷ ts) = t ∷ init (u ∷ ts)

abbrev pub last : List Bytes → List Bytes
last [] = []
last (t ∷ []) = t ∷ []
last (t ∷ u ∷ ts) = last (u ∷ ts)

abbrev pub put_back : ℕ → List Bytes → Stock → Stock
put_back epoch [] stock = delete_epoch epoch stock
put_back epoch (t ∷ ts) stock = set_tokens epoch (t ∷ ts) stock

unfoldable pub take_from : ℕ → List Bytes → TokenManager → TokenManager × List Bytes
take_from epoch [] m = (m, [])
take_from epoch (t ∷ ts) m =
    (persist (record m { store = put_back epoch (init (t ∷ ts)) m.store }), last (t ∷ ts))

unfoldable pub take_current_stack : TokenManager → ℕ → TokenManager × List Bytes
take_current_stack m now = elim (epoch_at m now) [
  | none ↦ (m, [])
  | some epoch ↦ take_from epoch (tokens_of epoch m.store) m
]

-- A hold on a serial; `live` until it is released.
pub record SessionTokenLease : Type 0 where
  pub key : String
  pub live : Bool

unfoldable pub release : SessionTokenLease → TokenManager → SessionTokenLease × TokenManager
release lease m =
    if not lease.live
    then (lease, m)
    else (record lease { live = false }, record m { held = delete_key lease.key m.held })

unfoldable pub rotate : ℕ → List Bytes → List Bytes
rotate rotation [] = []
rotate rotation (t ∷ ts) =
    let start = rotation % length (t ∷ ts) in drop start (t ∷ ts) ++ take start (t ∷ ts)

module _ (sha256 : Bytes → Bytes) (bytes_to_hex : Bytes → String) where
  abbrev pub serial : Bytes → Option String
  serial token = token_serial sha256 bytes_to_hex token

  unfoldable pub is_free : List String → Bytes → Bool
  is_free held token = elim (serial token) [ none ↦ false | some key ↦ not (has_key key held) ]

  unfoldable pub filter_free : List String → List Bytes → List Bytes
  filter_free held [] = []
  filter_free held (t ∷ ts) =
      let rest = filter_free held ts in if is_free held t then t ∷ rest else rest

  unfoldable pub session_stack : TokenManager → ℕ → List Bytes
  session_stack m now = elim (epoch_at m now) [
    | none ↦ []
    | some epoch ↦ filter_free m.held (rotate m.rotation (tokens_of epoch m.store))
  ]

  unfoldable pub claim : Bytes → TokenManager → Option (SessionTokenLease × TokenManager)
  claim token m = elim (serial token) [
    | none ↦ none
    | some key ↦
        if has_key key m.held
        then none
        else some (record { key = key; live = true }, record m { held = key ∷ m.held })
  ]
