-- ===== src/Discovery/Ss58.antt =====
-- packages/core/src/identity/ss58.ts: account addresses. `none` is any of the thrown errors.
pub mod RoundTrip
use Prim.Native.String.{String}
use warren_sdk_ts.Prelude.{
  ℕ, ◌+◌, ◌*◌, ◌/◌, ◌^◌, ◌≡◌, refl, List, [], ◌∷◌, ◌++◌, Option, none, some, Bool, ◌&&◌, ◌==◌, ltb,
  if◌then◌else◌, length, take, drop, bit_and, bit_or, not,
}
use warren_sdk_ts.Discovery.Json.{◌>>=◌}
use warren_sdk_ts.Discovery.Platform.{Bytes, Platform}

-- `v << n` below 2 ^ 32, and `v >> n`
abbrev pub shl : ℕ → ℕ → ℕ
shl v n = v * 2 ^ n

abbrev pub shr : ℕ → ℕ → ℕ
shr v n = v / 2 ^ n

abbrev pub warren_ss58_prefix : ℕ
warren_ss58_prefix = 13295

unfoldable pub encode_prefix : ℕ → Option Bytes
encode_prefix prefix =
    if ltb 16383 prefix
    then none
    else if ltb prefix 64
    then some (prefix ∷ [])
    else some (
        bit_or (shr (bit_and prefix 252) 2) 64
        ∷ bit_or (shr prefix 8) (shl (bit_and prefix 3) 6)
        ∷ [])

-- How many bytes of prefix the first byte announces
unfoldable pub prefix_len : ℕ → ℕ
prefix_len first = if bit_and first 64 == 0 then 1 else 2

-- The prefix that the bytes start with
unfoldable pub decode_prefix : Bytes → ℕ
unfolding prefix_len
decode_prefix [] = 0
decode_prefix (first ∷ []) = first
decode_prefix (first ∷ second ∷ rest) =
    if prefix_len first == 1
    then first
    else bit_or (shl (bit_and second 63) 8) (bit_or (shl (bit_and first 63) 2) (shr second 6))

abbrev pub same_bytes : Bytes → Bytes → Bool
same_bytes [] [] = Bool.true
same_bytes [] (b ∷ bs) = Bool.false
same_bytes (a ∷ rest) [] = Bool.false
same_bytes (a ∷ rest) (b ∷ bs) = a == b && same_bytes rest bs

module _ (p : Platform) where
  unfoldable pub checksum : Bytes → Bytes
  checksum payload = take 2 (p.blake2b (p.utf8 "SS58PRE" ++ payload))

  unfoldable pub encode_address : Bytes → ℕ → Option String
  unfolding encode_prefix checksum
  encode_address public_key prefix =
      if length public_key == 32
      then (do
        front ← encode_prefix prefix
        some (p.base58_encode ((front ++ public_key) ++ checksum (front ++ public_key))))
      else none

  -- The bytes of an address behind `len` bytes of prefix
  unfoldable pub decode_key : ℕ → ℕ → Bytes → Option Bytes
  unfolding checksum decode_prefix
  decode_key prefix len bytes =
      if not (length bytes == len + 34)
      then none
      else if not (decode_prefix bytes == prefix)
      then none
      else if same_bytes (take 2 (drop (len + 32) bytes)) (checksum (take (len + 32) bytes))
      then some (take 32 (drop len bytes))
      else none

  abbrev pub decode_data : ℕ → Bytes → Option Bytes
  decode_data prefix [] = none
  decode_data prefix (first ∷ rest) = decode_key prefix (prefix_len first) (first ∷ rest)

  unfoldable pub decode_address : String → ℕ → Option Bytes
  unfolding prefix_len decode_key
  decode_address address prefix = do bytes ← p.base58_decode address; decode_data prefix bytes
