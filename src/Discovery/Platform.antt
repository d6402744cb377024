-- ===== src/Discovery/Platform.antt =====
-- What the verifiers of packages/core/src/discovery take from the platform and from the noble and scure
-- packages, and the result type of a function that throws. `none` is an exception of the call.
use Prim.Native.String.{String}
use warren_sdk_ts.Prelude.{ℕ, List, Option, none, some, Bool, if◌then◌else◌}
use warren_sdk_ts.Discovery.Json.{Json}

abbrev pub Bytes : Type 0
Bytes = List ℕ

pub record Platform : Type 0 where
  -- `JSON.parse`, `JSON.stringify`, `toLowerCase`, and whether `new URL` takes `http://[…]/`
  pub parse : String → Option Json
  pub stringify : Json → String
  pub lower : String → String
  pub is_url_ipv6 : String → Bool
  -- @noble/hashes/utils
  pub utf8 : String → Bytes
  pub hex_to_bytes : String → Option Bytes
  pub bytes_to_hex : Bytes → String
  -- `ed25519.verify(signature, message, publicKey, { zip215: false })`, and whether a key is a point
  pub ed25519_verify : Bytes → Bytes → Bytes → Option Bool
  pub is_point : Bytes → Bool
  -- `base58` and the 64-byte `blake2b`
  pub base58_encode : Bytes → String
  pub base58_decode : String → Option Bytes
  pub blake2b : Bytes → Bytes

pub data Checked {ℓ κ} (E : Type ℓ) (A : Type κ) : Type (ℓ ⊔ κ) where
  ok : A → Checked E A
  fail : E → Checked E A

module _ {ℓ} {E : Type ℓ} where
  infixl 5 ◌>>=◌ ◌>>◌
  abbrev pub ◌>>=◌ {κ μ} : {A : Type κ} {B : Type μ} → Checked E A → (A → Checked E B) → Checked E B
  ok a >>= f = f a
  fail e >>= f = fail e

  abbrev pub ◌>>◌ {κ μ} : {A : Type κ} {B : Type μ} → Checked E A → Checked E B → Checked E B
  m >> k = m >>= λ _. k

  -- `if (!test) throw e`
  abbrev pub require : Bool → E → Checked E (Unit {0})
  require test e = if test then ok tt else fail e

  abbrev pub or_fail {κ} : {A : Type κ} → Option A → E → Checked E A
  or_fail none e = fail e
  or_fail (some a) e = ok a
