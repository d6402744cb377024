-- ===== src/Wire/Result.antt =====
-- What a function of the byte formats returns: a value, or the `RangeError` it throws. There is a
-- constructor for each `throw new RangeError(...)` of packages/core/src/edge/{varint,frame,frame-v2,
-- control}.ts, with the numbers that its message shows; the field names in the messages are left out.
use warren_sdk_ts.Prelude.{ℕ, ◌≡◌, refl}

pub data RangeError : Type 0 where
  negative_leb128 : RangeError
  leb128_exceeds_64_bits : RangeError
  truncated_leb128 : RangeError
  wrong_field_length : ℕ → ℕ → RangeError
  truncated_frame : ℕ → RangeError
  unsupported_version : ℕ → RangeError
  frame_too_large : RangeError
  trailing_bytes : RangeError
  no_session_token : RangeError
  too_many_session_tokens : RangeError
  session_token_length : ℕ → RangeError
  prefer_ipv4_length : RangeError
  control_too_short : ℕ → RangeError
  truncated_control : ℕ → RangeError
  not_a_control_message : ℕ → RangeError
  unsupported_control_version : ℕ → RangeError
  invalid_option_tag : ℕ → RangeError
  unexpected_control_variant : ℕ → RangeError

pub data Result {ℓ} (A : Type ℓ) : Type ℓ where
  ok : A → Result A
  throw : RangeError → Result A

infixl 5 ◌>>=◌ ◌>>◌
abbrev pub ◌>>=◌ {ℓ κ} : {A : Type ℓ} {B : Type κ} → Result A → (A → Result B) → Result B
ok a >>= f = f a
throw e >>= f = throw e

abbrev pub ◌>>◌ {ℓ κ} : {A : Type ℓ} {B : Type κ} → Result A → Result B → Result B
m >> k = m >>= λ _. k

pub ok-injective : {A : Type 0} (a b : A) → ok a ≡ ok b → a ≡ b
ok-injective a b e = cc

-- A block that starts with a check and returned has passed it.
pub >>-eq-ok :
    {B : Type 0} (m : Result (Unit {0})) (k : Result B) (b : B)
    → (m >> k) ≡ ok b
    → (m ≡ ok tt) × (k ≡ ok b)
>>-eq-ok (ok tt) k b e = (refl, e)
>>-eq-ok (throw x) k b e = cc
