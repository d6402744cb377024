-- ===== src/Discovery/Stores.antt =====
-- packages/core/src/discovery/stores.ts: the acceptance policy for signed documents. The signature
-- check stands in front of it and is an argument: what the verifier made of the document under the
-- pins in force. Generations and seconds are numbers.
pub mod Policy
pub mod History
pub mod Signed
use Prim.Native.String.{String}
use warren_sdk_ts.Prelude.{
  ℕ, List, [], ◌∷◌, Option, none, some, Bool, true, false, leb, ltb, if◌then◌else◌,
}

-- What the policy reads of a verified relay list or directory.
pub record Verified : Type 0 where
  pub generation : ℕ
  pub server_pubkey_hex : String
  pub expires_at : ℕ

-- `E` is an error of the verifier.
pub data AcceptError (E : Type 0) : Type 0 where
  refused : E → AcceptError E
  expired : AcceptError E
  rolled_back : AcceptError E

pub data Accepted (E : Type 0) : Type 0 where
  accepted : Verified → Accepted E
  failed : AcceptError E → Accepted E

-- The two in-memory stores that a caller may pass: `none` where it passes none. A pin is `none` until
-- one is stored.
pub record AcceptStores : Type 0 where
  pub floor : Option ℕ
  pub pin : Option (Option String)

-- `InMemoryGenerationStore`
unfoldable pub store_floor : ℕ → ℕ → ℕ
store_floor floor generation = if ltb floor generation then generation else floor

abbrev pub load_floor : Option ℕ → ℕ
load_floor none = 0
load_floor (some floor) = floor

abbrev pub load_pin : Option (Option String) → Option String
load_pin none = none
load_pin (some pin) = pin

unfoldable pub effective_pins : List String → AcceptStores → List String
effective_pins [] stores = elim (load_pin stores.pin) [ none ↦ [] | some tofu ↦ tofu ∷ [] ]
effective_pins (p ∷ pins) stores = p ∷ pins

abbrev pub store_floor_in : Option ℕ → ℕ → Option ℕ
store_floor_in none generation = none
store_floor_in (some floor) generation = some (store_floor floor generation)

-- Trust on first use: with no explicit pins, the first verified key is kept.
abbrev pub store_pin_in : List String → Option (Option String) → String → Option (Option String)
store_pin_in [] (some none) key = some (some key)
store_pin_in pins pin key = pin

unfoldable pub finish_accept :
    {E : Type 0} → List String → AcceptStores → Verified → Bool → AcceptStores × Accepted E
unfolding store_floor
finish_accept pins stores doc is_expired =
    if is_expired
    then (stores, failed expired)
    else if ltb doc.generation (load_floor stores.floor)
    then (stores, failed rolled_back)
    else (
      record {
        floor = store_floor_in stores.floor doc.generation;
        pin = store_pin_in pins stores.pin doc.server_pubkey_hex;
      },
      accepted doc,
    )

-- What the verifier answers: a document, or its error.
pub data Checked (E : Type 0) : Type 0 where
  valid : Verified → Checked E
  invalid : E → Checked E

abbrev pub after_check :
    {E : Type 0} → List String → AcceptStores → ℕ → Checked E → AcceptStores × Accepted E
after_check pins stores now (valid doc) = finish_accept pins stores doc (leb doc.expires_at now)
after_check pins stores now (invalid e) = (stores, failed (refused e))

-- `acceptSignedRelayList`, and `acceptMultihopDirectory`, which differs in the verifier alone.
-- `verify pins` is the answer of the verifier on the document at hand.
unfoldable pub accept :
    {E : Type 0}
    → (List String → Checked E)
    → List String
    → ℕ
    → AcceptStores
    → AcceptStores × Accepted E
unfolding finish_accept effective_pins
accept verify pins now stores = after_check pins stores now (verify (effective_pins pins stores))
