-- ===== src/Tokens/Manager/Sound.antt =====
-- A revoked manager holds nothing: the invariant of a `TokenManager`, and that every operation without
-- a request keeps it and the revocation.
use Prim.Native.String.{String}
use warren_sdk_ts.Prelude.{
  ℕ, ◌≡◌, inl, inr, refl, ap, List, [], ◌∷◌, Option, none, some, true, Bool-cases, Option-cases,
}
use warren_sdk_ts.Tokens.Store.{Bytes, Stock, tokens_of}
use warren_sdk_ts.Tokens.Manager.Stack.{Granted, granted, claim-Granted}
use warren_sdk_ts.Tokens.Manager.{
  TokenManager, PersistedBundle, SessionTokenLease, persist, revoke, set_device_name, epoch_at,
  take_from, take_current_stack, release, claim,
}

-- The tokens of the saved bundle.
abbrev pub saved_epochs : Option PersistedBundle → Stock
saved_epochs none = []
saved_epochs (some bundle) = bundle.epochs

-- Once revoked, the store and the persisted bundle are empty.
abbrev pub IsSound : TokenManager → Type 0
IsSound m = m.revoked ≡ true → (m.store ≡ []) × (saved_epochs m.saved ≡ [])

-- A change of the manager that keeps the invariant and never takes a revocation back.
abbrev pub Keeps : TokenManager → TokenManager → Type 0
Keeps m n = (IsSound m → IsSound n) × (m.revoked ≡ true → n.revoked ≡ true)

pub Keeps-refl : (m : TokenManager) → Keeps m m
Keeps-refl m = ((λ h. h), (λ h. h))

pub Keeps-trans : (l m n : TokenManager) → Keeps l m → Keeps m n → Keeps l n
Keeps-trans l m n (a, b) (c, d) = ((λ h. c (a h)), (λ h. d (b h)))

pub Keeps-persist : (m : TokenManager) → Keeps m (persist m)
unfolding persist
Keeps-persist m = ((λ h r. ((h r).0, (h r).0)), (λ r. r))

pub Keeps-revoke : (m : TokenManager) → Keeps m (revoke m)
unfolding revoke persist
Keeps-revoke m = ((λ h r. (refl, refl)), (λ r. refl))

pub Keeps-release : (lease : SessionTokenLease) (m : TokenManager) → Keeps m (release lease m).1
unfolding release
Keeps-release lease m = elim (Bool-cases lease.live) [
  | inl e ↦ rw (release, e) (Keeps-refl m)
  | inr e ↦ rw (release, e) (Keeps-refl m)
]

pub Keeps-set_device_name : (name : String) (m : TokenManager) → Keeps m (set_device_name name m)
unfolding set_device_name
Keeps-set_device_name name m = elim (Option-cases m.device) [
  | inl e ↦ rw (set_device_name, e) (Keeps-refl m)
  | inr (d, e) ↦ rw (set_device_name, e) (Keeps-refl m)
]

-- Nothing is taken from an empty store.
taking :
    (epoch : ℕ) (ts : List Bytes) (m : TokenManager)
    → tokens_of epoch m.store ≡ ts
    → Keeps m (take_from epoch ts m).0
unfolding take_from persist tokens_of
taking epoch [] m e = Keeps-refl m
taking epoch (t ∷ ts) m e = (
  (λ h r.
      absurd (let none_left : tokens_of epoch m.store ≡ [] = ap (tokens_of epoch) (h r).0 in cc)),
  (λ r. r),
)

pub Keeps-take_current_stack : (m : TokenManager) (now : ℕ) → Keeps m (take_current_stack m now).0
unfolding take_current_stack
Keeps-take_current_stack m now = elim (Option-cases (epoch_at m now)) [
  | inl e ↦ rw (take_current_stack, e) (Keeps-refl m)
  | inr (epoch, e) ↦ rw (take_current_stack, e) (from epoch)
]
  where
    from : (epoch : ℕ) → Keeps m (take_from epoch (tokens_of epoch m.store) m).0
    from epoch = taking epoch (tokens_of epoch m.store) m refl

pub Keeps-claim :
    (sha256 : Bytes → Bytes) (bytes_to_hex : Bytes → String) (token : Bytes) (m n : TokenManager)
    (lease : SessionTokenLease)
    → claim sha256 bytes_to_hex token m ≡ some (lease, n)
    → Keeps m n
unfolding claim
Keeps-claim sha256 bytes_to_hex token m n lease h =
    go (claim-Granted sha256 bytes_to_hex token m (lease, n) h)
  where
    go :
        {r : SessionTokenLease × TokenManager} → Granted sha256 bytes_to_hex token m r → Keeps m r.1
    go (granted key e f) = Keeps-refl m
