-- ===== src/Discovery/Stores/History.antt =====
-- A client's run: documents offered one after another to the same two stores.
use Prim.Native.String.{String}
use warren_sdk_ts.Prelude.{ℕ, ◌≤◌, ◌≡◌, ap, ◌∙◌, List, [], ◌∷◌, Option, none, some, arith, All}
use warren_sdk_ts.Discovery.Stores.{
  Verified, Accepted, AcceptStores, Checked, accepted, failed, valid, effective_pins, store_floor,
  accept,
}
use warren_sdk_ts.Discovery.Stores.Policy.{Attempt, took, left, attempt}

-- A document on offer: what the verifier makes of it under given pins, the caller's pins and the time.
pub record Offer (E : Type 0) : Type 0 where
  pub verify : List String → Checked E
  pub pins : List String
  pub now : ℕ

abbrev pub taken : {E : Type 0} → Accepted E → List Verified → List Verified
taken (accepted doc) docs = doc ∷ docs
taken (failed x) docs = docs

-- The documents that a run accepts, in order.
unfoldable pub run : {E : Type 0} → List (Offer E) → AcceptStores → List Verified
run [] stores = []
run (o ∷ offers) stores =
    let (after, answer) = accept o.verify o.pins o.now stores in taken answer (run offers after)

-- Generations from `floor` on that never fall.
abbrev pub IsAscending : ℕ → List Verified → Type 0
IsAscending floor [] = Unit
IsAscending floor (doc ∷ docs) = (floor ≤ doc.generation) × IsAscending doc.generation docs

raised : (floor generation : ℕ) → floor ≤ generation → store_floor floor generation ≡ generation
unfolding store_floor
raised floor generation h = ground arith

ascending :
    {E : Type 0} (offers : List (Offer E)) (floor : ℕ) (pin : Option (Option String))
    → IsAscending floor (run offers (record { floor = some floor; pin = pin }))
unfolding run
ascending [] floor pin = tt
ascending {E} (o ∷ offers) floor pin = go (attempt o.verify o.pins o.now stores) (ascending offers)
  where
    stores : AcceptStores
    stores = record { floor = some floor; pin = pin }

    go :
        Attempt o.verify o.pins o.now stores (accept o.verify o.pins o.now stores)
        → ((f : ℕ) (p : Option (Option String))
            → IsAscending f (run offers (record { floor = some f; pin = p })))
        → IsAscending floor (
            taken
              (accept o.verify o.pins o.now stores).1
              (run offers (accept o.verify o.pins o.now stores).0))
    go (took doc h r) ih =
        rw (r, raised floor doc.generation h.above_floor) (h.above_floor, ih doc.generation _)
    go (left x r) ih = rw r (ih floor pin)

-- With a generation store, the documents that a run accepts have generations that never fall, the
-- first not below the stored floor, whatever documents are offered in whatever order: none is rolled
-- back.
pub run-IsAscending :
    {E : Type 0} (offers : List (Offer E)) (floor : ℕ) (pin : Option (Option String))
    → IsAscending floor (run offers (record { floor = some floor; pin = pin }))
run-IsAscending offers floor pin = ascending offers floor pin

-- Whatever holds of every document that a verifier of the offers passes holds of those that a run
-- accepts.
pub run-All :
    {E : Type 0} (Q : Verified → Type 0) (offers : List (Offer E)) (stores : AcceptStores)
    → All (λ o. (pins : List String) (doc : Verified) → o.verify pins ≡ valid doc → Q doc) offers
    → All Q (run offers stores)
unfolding run
run-All Q [] stores h = tt
run-All {E} Q (o ∷ offers) stores (ho, h) =
    go (attempt o.verify o.pins o.now stores)
      (run-All Q offers (accept o.verify o.pins o.now stores).0 h)
  where
    go :
        Attempt o.verify o.pins o.now stores (accept o.verify o.pins o.now stores)
        → All Q (run offers (accept o.verify o.pins o.now stores).0)
        → All Q (
            taken
              (accept o.verify o.pins o.now stores).1
              (run offers (accept o.verify o.pins o.now stores).0))
    go (took doc d r) ih =
        let answered : (accept o.verify o.pins o.now stores).1 ≡ accepted doc = ap (λ t. t.1) r in
        rw answered (ho (effective_pins o.pins stores) doc d.verified, ih)
    go (left x r) ih =
        let answered : (accept o.verify o.pins o.now stores).1 ≡ failed x = ap (λ t. t.1) r in
        rw answered ih

-- The caller pins no key, and under one pin the verifier passes only what that key has signed. The
-- verifier gives the key as `lower` writes it.
pub record IsUnpinned {E : Type 0} (lower : String → String) (o : Offer E) : Type 0 where
  pub no_pins : o.pins ≡ []
  pub keeps_pin :
      (key : String) (doc : Verified)
      → o.verify (key ∷ []) ≡ valid doc
      → doc.server_pubkey_hex ≡ lower key
  pub in_lower_case :
      (doc : Verified)
      → o.verify [] ≡ valid doc
      → lower doc.server_pubkey_hex ≡ doc.server_pubkey_hex

abbrev pub SignedBy : String → List Verified → Type 0
SignedBy key = All (λ doc. doc.server_pubkey_hex ≡ key)

-- Every accepted document but the first is signed by the key of the first.
abbrev pub HaveOneKey : List Verified → Type 0
HaveOneKey [] = Unit
HaveOneKey (doc ∷ docs) = SignedBy doc.server_pubkey_hex docs

pinned :
    {E : Type 0} (lower : String → String) (offers : List (Offer E)) (floor : Option ℕ)
    (key : String)
    → lower key ≡ key
    → All (IsUnpinned lower) offers
    → SignedBy key (run offers (record { floor = floor; pin = some (some key) }))
unfolding run
pinned lower [] floor key low h = tt
pinned {E} lower (o ∷ offers) floor key low (ho, h) =
    go (attempt o.verify o.pins o.now stores) (λ f. pinned lower offers f key low h)
  where
    stores : AcceptStores
    stores = record { floor = floor; pin = some (some key) }

    go :
        Attempt o.verify o.pins o.now stores (accept o.verify o.pins o.now stores)
        → ((f : Option ℕ) → SignedBy key (run offers (record { floor = f; pin = some (some key) })))
        → SignedBy key (
            taken
              (accept o.verify o.pins o.now stores).1
              (run offers (accept o.verify o.pins o.now stores).0))
    go (took doc d r) ih =
        rw (r, ho.no_pins)
          (ho.keeps_pin key doc (unfold effective_pins in rw ho.no_pins at d.verified) ∙ low, ih _)
    go (left x r) ih = rw r (ih floor)

-- On an empty pin store and with no pins from the caller, every document that a run accepts after the
-- first is signed by the key of the first: the key trusted on first use is never replaced. The
-- verifier is assumed to pass, under one pin, only what that key has signed, and to write keys in
-- lower case.
pub run-HaveOneKey :
    {E : Type 0} (lower : String → String) (offers : List (Offer E)) (floor : Option ℕ)
    → All (IsUnpinned lower) offers
    → HaveOneKey (run offers (record { floor = floor; pin = some none }))
unfolding run
run-HaveOneKey lower [] floor h = tt
run-HaveOneKey {E} lower (o ∷ offers) floor (ho, h) =
    go (attempt o.verify o.pins o.now stores) (λ f key low. pinned lower offers f key low h)
      (λ f. run-HaveOneKey lower offers f h)
  where
    stores : AcceptStores
    stores = record { floor = floor; pin = some none }

    go :
        Attempt o.verify o.pins o.now stores (accept o.verify o.pins o.now stores)
        → ((f : Option ℕ) (key : String)
            → lower key ≡ key
            → SignedBy key (run offers (record { floor = f; pin = some (some key) })))
        → ((f : Option ℕ) → HaveOneKey (run offers (record { floor = f; pin = some none })))
        → HaveOneKey (
            taken
              (accept o.verify o.pins o.now stores).1
              (run offers (accept o.verify o.pins o.now stores).0))
    go (took doc d r) first ih =
        let verified : o.verify [] ≡ valid doc =
          (unfold effective_pins in rw ho.no_pins at d.verified) in
        rw (r, ho.no_pins) (first _ doc.server_pubkey_hex (ho.in_lower_case doc verified))
    go (left x r) first ih = rw r (ih floor)
