-- ===== src/Discovery/Stores/Signed.antt =====
-- packages/core/src/discovery/stores.ts: `acceptSignedRelayList`, the policy behind the verifier of
-- verify.ts.
use Prim.Native.String.{String}
use text.Mathlib.TextEquality.{eq_iff}
use warren_sdk_ts.Prelude.{
  ℕ, ◌≡◌, refl, ◌∙◌, List, [], ◌∷◌, map, Option, none, some, arith, All, true,
}
use warren_sdk_ts.Discovery.Json.{Json}
use warren_sdk_ts.Discovery.Verify.Read.{IsList}
use warren_sdk_ts.Discovery.Platform.{Platform, ok, fail}
use warren_sdk_ts.Discovery.Platform as Platform
use warren_sdk_ts.Discovery.Relay.{VerifiedRelayList}
use warren_sdk_ts.Discovery.Verify.{
  SignedList, WarrenDiscoveryErrorCode, pins_allow, verify_signed_relay_list,
}
use warren_sdk_ts.Discovery.Verify.Sound.{IsSigned, verify_signed_relay_list-IsVerified}
use warren_sdk_ts.Discovery.Stores.{
  Verified, Accepted, AcceptStores, Checked, valid, invalid, accept,
}
use warren_sdk_ts.Discovery.Stores.History.{
  Offer, IsUnpinned, HaveOneKey, run, run-All, run-HaveOneKey,
}

-- What the policy reads of a relay list.
abbrev pub verified_of : VerifiedRelayList → Verified
verified_of list = record {
  generation = list.generation;
  server_pubkey_hex = list.server_pubkey_hex;
  expires_at = list.expires_at;
}

abbrev pub answer_of :
    Platform.Checked WarrenDiscoveryErrorCode VerifiedRelayList → Checked WarrenDiscoveryErrorCode
answer_of (ok list) = valid (verified_of list)
answer_of (fail e) = invalid e

module _ (p : Platform) where
  unfoldable pub accept_signed_relay_list :
      String → List String → ℕ → AcceptStores → AcceptStores × Accepted WarrenDiscoveryErrorCode
  unfolding accept
  accept_signed_relay_list signed_json pins now stores =
      accept (λ trusted. answer_of (verify_signed_relay_list p signed_json trusted)) pins now stores

  -- A text fetched at a time, by a caller that pins no key
  abbrev pub fetched : String × ℕ → Offer WarrenDiscoveryErrorCode
  fetched (signed_json, now) = record {
    verify = λ trusted. answer_of (verify_signed_relay_list p signed_json trusted);
    pins = [];
    now = now;
  }

  valid_list :
      (c : Platform.Checked WarrenDiscoveryErrorCode VerifiedRelayList) (doc : Verified)
      → answer_of c ≡ valid doc
      → (list : VerifiedRelayList) × (c ≡ ok list) × (doc ≡ verified_of list)
  valid_list (ok list) doc e = (list, refl, cc)
  valid_list (fail x) doc e = absurd cc

  one_pin :
      (key pin : String) → pins_allow p.lower key (pin ∷ []) ≡ true → p.lower key ≡ p.lower pin
  one_pin key pin h = ground (arith, eq_iff (p.lower pin) (p.lower key))

  fetched-IsUnpinned :
      ((s : String) → p.lower (p.lower s) ≡ p.lower s)
      → (doc : String × ℕ) → IsUnpinned p.lower (fetched doc)
  fetched-IsUnpinned lower_twice (signed_json, now) = record {
    no_pins = refl;
    keeps_pin = λ key doc e.
        let (list, verified, same) =
          valid_list (verify_signed_relay_list p signed_json (key ∷ [])) doc e in
        let v = (verify_signed_relay_list-IsVerified p signed_json (key ∷ []) list).0 verified in
        rw same (v.server_key ∙ one_pin v.list.server_pubkey_hex key v.pinned);
    in_lower_case = λ doc e.
        let (list, verified, same) = valid_list (verify_signed_relay_list p signed_json []) doc e in
        let v = (verify_signed_relay_list-IsVerified p signed_json [] list).0 verified in
        rw (same, v.server_key, lower_twice v.list.server_pubkey_hex) refl;
  }

  fetched-All-IsUnpinned :
      ((s : String) → p.lower (p.lower s) ≡ p.lower s)
      → (docs : List (String × ℕ)) → All (IsUnpinned p.lower) (map fetched docs)
  fetched-All-IsUnpinned lower_twice [] = tt
  fetched-All-IsUnpinned lower_twice (doc ∷ docs) =
      (fetched-IsUnpinned lower_twice doc, fetched-All-IsUnpinned lower_twice docs)

  -- A text is a signed relay list that `doc` is of: its signature verifies over its fields under the
  -- server key that it names, which is the key of `doc`.
  pub record IsOf (doc : Verified) : Type 0 where
    pub text : String
    pub parsed : Json
    pub list : SignedList
    pub parses : p.parse text ≡ some parsed
    pub fields : IsList parsed list
    pub signed : IsSigned p list
    pub server_key : doc.server_pubkey_hex ≡ p.lower list.server_pubkey_hex
    pub generation : doc.generation ≡ list.generation

  fetched-IsOf :
      (o : String × ℕ) (pins : List String) (doc : Verified)
      → answer_of (verify_signed_relay_list p o.0 pins) ≡ valid doc
      → IsOf doc
  fetched-IsOf (text, now) pins doc e =
      let (list, verified, same) = valid_list (verify_signed_relay_list p text pins) doc e in
      let v = (verify_signed_relay_list-IsVerified p text pins list).0 verified in
      record {
        text = text;
        parsed = v.parsed;
        list = v.list;
        parses = v.parses;
        fields = v.fields;
        signed = v.signed;
        server_key = rw same v.server_key;
        generation = rw same v.generation;
      }

  fetched-All-IsOf :
      (docs : List (String × ℕ))
      → All
          (λ o. (pins : List String) (doc : Verified) → o.verify pins ≡ valid doc → IsOf doc)
          (map fetched docs)
  fetched-All-IsOf [] = tt
  fetched-All-IsOf (doc ∷ docs) = (fetched-IsOf doc, fetched-All-IsOf docs)

  -- A client that pins no key and starts with an empty key store, and to which any texts are offered at
  -- any times as signed relay lists: every list that it accepts is of a text whose Ed25519 signature
  -- verifies under the key that the list names, and after the first every list names the key of the
  -- first, once `toLowerCase` leaves a text in lower case alone.
  pub fetched-run-HaveOneKey :
      ((s : String) → p.lower (p.lower s) ≡ p.lower s)
      → (docs : List (String × ℕ)) (floor : Option ℕ)
      → let lists = run (map fetched docs) (record { floor = floor; pin = some none }) in
        All IsOf lists × HaveOneKey lists
  fetched-run-HaveOneKey lower_twice docs floor = (
    run-All IsOf (map fetched docs) (record { floor = floor; pin = some none })
        (fetched-All-IsOf docs),
    run-HaveOneKey p.lower (map fetched docs) floor (fetched-All-IsUnpinned lower_twice docs),
  )
