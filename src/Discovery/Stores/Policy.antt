-- ===== src/Discovery/Stores/Policy.antt =====
-- When a document is accepted, and what an attempt leaves in the stores.
use Prim.Native.String.{String}
use warren_sdk_ts.Prelude.{
  ℕ, ◌≤◌, ◌<◌, ◌≡◌, ◌↔◌, refl, ap, sym, ◌∙◌, List, arith, leb, ◌⊎◌, inl, inr, lt→leb, le→ltb,
  le→leb, lt→ltb,
}
use warren_sdk_ts.Discovery.Stores.{
  Verified, AcceptError, Accepted, AcceptStores, Checked, refused, expired, rolled_back, accepted,
  failed, valid, invalid, load_floor, effective_pins, store_floor_in, store_pin_in, finish_accept,
  after_check, accept,
}
use mathlib.Core.Path.{subst}
use native.Mathlib.Decide.{dec_le, dec_lt}

-- The stores after a document has been accepted.
abbrev pub recorded : List String → AcceptStores → Verified → AcceptStores
recorded pins stores doc = record {
  floor = store_floor_in stores.floor doc.generation;
  pin = store_pin_in pins stores.pin doc.server_pubkey_hex;
}

finish_accepted :
    {E : Type 0} (pins : List String) (stores : AcceptStores) (doc : Verified) (now : ℕ)
    → now < doc.expires_at
    → load_floor stores.floor ≤ doc.generation
    → finish_accept {E = E} pins stores doc (leb doc.expires_at now)
      ≡ (recorded pins stores doc, accepted doc)
unfolding finish_accept
finish_accepted pins stores doc now fresh above =
    rw (lt→leb doc.expires_at now fresh, le→ltb doc.generation (load_floor stores.floor) above)

-- Either the document is fresh and not below the floor, or the attempt fails and stores nothing.
finish_cases :
    {E : Type 0} (pins : List String) (stores : AcceptStores) (doc : Verified) (now : ℕ)
    → ((now < doc.expires_at) × (load_floor stores.floor ≤ doc.generation))
      ⊎ ((x : AcceptError E) × (finish_accept pins stores doc (leb doc.expires_at now)
            ≡ (stores, failed x)))
unfolding finish_accept
finish_cases pins stores doc now = elim (dec_le doc.expires_at now) [
  | yes old ↦ inr (expired, rw (le→leb doc.expires_at now old))
  | no fresh ↦ elim (dec_lt doc.generation (load_floor stores.floor)) [
    | yes below ↦
        let live : now < doc.expires_at = omega arith in
        inr (
          rolled_back,
          rw (
            lt→leb doc.expires_at now live,
            lt→ltb doc.generation (load_floor stores.floor) below,
          ),
        )
    | no above ↦ inl (omega arith, omega arith)
  ]
]

-- What acceptance of `doc` means.
pub record IsAccepted {E : Type 0} (verify : List String → Checked E) (pins : List String) (now : ℕ)
    (stores : AcceptStores) (doc : Verified) : Type 0 where
  pub verified : verify (effective_pins pins stores) ≡ valid doc
  pub fresh : now < doc.expires_at
  pub above_floor : load_floor stores.floor ≤ doc.generation

-- An attempt has accepted a document, or failed and left the stores alone.
pub data Attempt {E : Type 0} (verify : List String → Checked E) (pins : List String) (now : ℕ)
    (stores : AcceptStores) (r : AcceptStores × Accepted E) : Type 0 where
  took :
      (doc : Verified)
      → IsAccepted verify pins now stores doc
      → r ≡ (recorded pins stores doc, accepted doc)
      → Attempt verify pins now stores r
  left : (x : AcceptError E) → r ≡ (stores, failed x) → Attempt verify pins now stores r

accept-IsAccepted :
    {E : Type 0} (verify : List String → Checked E) (pins : List String) (now : ℕ)
    (stores : AcceptStores) (doc : Verified)
    → IsAccepted verify pins now stores doc
    → accept verify pins now stores ≡ (recorded pins stores doc, accepted doc)
unfolding accept
accept-IsAccepted verify pins now stores doc h =
    rw h.verified (finish_accepted pins stores doc now h.fresh h.above_floor)

pub attempt :
    {E : Type 0} (verify : List String → Checked E) (pins : List String) (now : ℕ)
    (stores : AcceptStores)
    → Attempt verify pins now stores (accept verify pins now stores)
unfolding accept
attempt {E} verify pins now stores = go (verify (effective_pins pins stores)) refl
  where
    decide :
        (doc : Verified)
        → verify (effective_pins pins stores) ≡ valid doc
        → ((now < doc.expires_at) × (load_floor stores.floor ≤ doc.generation))
          ⊎ ((x : AcceptError E) × (finish_accept pins stores doc (leb doc.expires_at now)
                ≡ (stores, failed x)))
        → Attempt verify pins now stores (finish_accept pins stores doc (leb doc.expires_at now))
    decide doc e (inl (fresh, above)) =
        took doc (record { verified = e; fresh = fresh; above_floor = above })
          (finish_accepted pins stores doc now fresh above)
    decide doc e (inr (x, r)) = left x r

    go :
        (c : Checked E)
        → verify (effective_pins pins stores) ≡ c
        → Attempt verify pins now stores (after_check pins stores now c)
    go (valid doc) e = decide doc e (finish_cases pins stores doc now)
    go (invalid x) e = left (refused x) refl

-- A document is accepted exactly when the verifier passes it under the pins in force (the caller's, or
-- else the key trusted on first use), it has not expired and its generation is not below the floor;
-- the stores then hold the higher generation and, with no explicit pins and no key yet, its key.
pub accept_iff :
    {E : Type 0} (verify : List String → Checked E) (pins : List String) (now : ℕ)
    (stores after : AcceptStores) (doc : Verified)
    → (accept verify pins now stores ≡ (after, accepted doc))
      ↔ (IsAccepted verify pins now stores doc × (after ≡ recorded pins stores doc))
accept_iff {E} verify pins now stores after doc = (
  λ e. go (attempt verify pins now stores) e,
  λ h. accept-IsAccepted verify pins now stores doc h.0 ∙ ap (λ t. (t, accepted doc)) (sym h.1),
)
  where
    go :
        Attempt verify pins now stores (accept verify pins now stores)
        → ◌≡◌ {A = AcceptStores × Accepted E} (accept verify pins now stores) (after, accepted doc)
        → IsAccepted verify pins now stores doc × (after ≡ recorded pins stores doc)
    go (took d h r) e =
        let same : d ≡ doc = cc (sym r, e) in
        let stored : after ≡ recorded pins stores d = cc (sym r, e) in
        (subst (IsAccepted verify pins now stores) same h, stored ∙ ap (recorded pins stores) same)
    go (left x r) e = cc (sym r, e)

-- A document that is not accepted, whatever the reason, leaves the floor and the pin as they were.
pub accept_failed :
    {E : Type 0} (verify : List String → Checked E) (pins : List String) (now : ℕ)
    (stores after : AcceptStores) (x : AcceptError E)
    → accept verify pins now stores ≡ (after, failed x)
    → after ≡ stores
accept_failed {E} verify pins now stores after x e = go (attempt verify pins now stores) e
  where
    go :
        Attempt verify pins now stores (accept verify pins now stores)
        → ◌≡◌ {A = AcceptStores × Accepted E} (accept verify pins now stores) (after, failed x)
        → after ≡ stores
    go (took d h r) e = cc (sym r, e)
    go (left y r) e = cc (sym r, e)
