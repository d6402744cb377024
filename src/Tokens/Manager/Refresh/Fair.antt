-- ===== src/Tokens/Manager/Refresh/Fair.antt =====
-- What other calls of the same manager may do while a request of a pass is out, and that they keep the
-- invariant, as the changes of a pass itself do.
use Prim.Native.String.{String}
use text.Mathlib.Text.{◌==◌ as str_eq}
use warren_sdk_ts.Prelude.{
  ℕ, ◌≡◌, inl, inr, refl, ap, List, Option, some, Bool, true, false, Bool-cases, Option-cases,
  if◌then◌else◌,
}
use warren_sdk_ts.Tokens.Store.{Bytes, prune_before}
use warren_sdk_ts.Tokens.Manager.{
  TokenManager, DeviceRegistration, SessionTokenLease, persist, revoke, set_device_name,
  take_current_stack, release, claim,
}
use warren_sdk_ts.Tokens.Manager.Sound.{
  Keeps, Keeps-refl, Keeps-trans, Keeps-persist, Keeps-revoke, Keeps-release, Keeps-set_device_name,
  Keeps-take_current_stack, Keeps-claim,
}
use warren_sdk_ts.Tokens.Manager.Refresh.{
  TokenIssuerDirectory, TokenTransport, adopt, begin_pass, settle, stock,
}

pub Keeps-adopt : (name : String) (m : TokenManager) → Keeps m (adopt name m)
unfolding adopt
Keeps-adopt name m = elim (Option-cases m.device) [
  | inl e ↦ rw (adopt, e) (Keeps-refl m)
  | inr (d, e) ↦ elim (Bool-cases (str_eq d.name name)) [
    | inl f ↦ rw (adopt, e, f) (Keeps-refl m)
    | inr f ↦ rw (adopt, e, f) (Keeps-refl m)
  ]
]

pub Keeps-begin_pass :
    (directory : TokenIssuerDirectory) (current : ℕ) (m : TokenManager)
    → Keeps m (begin_pass directory current m)
unfolding begin_pass prune_before
Keeps-begin_pass directory current m =
    ((λ h r. (ap (prune_before current) (h r).0, (h r).1)), (λ r. r))

pub Keeps-settle : (epoch : ℕ) (m : TokenManager) → Keeps m (settle epoch m)
unfolding settle
Keeps-settle epoch m = ((λ h. h), (λ r. r))

Keeps-if : (b : Bool) (m n : TokenManager) → (b ≡ false → Keeps m n) → Keeps m (if b then m else n)
Keeps-if true m n f = Keeps-refl m
Keeps-if false m n f = f refl

pub Keeps-stock :
    (epoch : ℕ) (tokens : List Bytes) (m : TokenManager) → Keeps m (stock epoch tokens m)
unfolding stock settle
Keeps-stock epoch tokens m = Keeps-if m.revoked m _ (λ e. ((λ h r. absurd cc), (λ r. r)))

-- The manager after other calls: sessions claim, release and take, the app renames the device, and
-- another pass does what a pass does between two requests.
pub data Meanwhile (m : TokenManager) : TokenManager → Type 0 where
  idle : Meanwhile m m
  claimed :
      {n after : TokenManager} (sha256 : Bytes → Bytes) (bytes_to_hex : Bytes → String)
      (token : Bytes) (lease : SessionTokenLease)
      → Meanwhile m n
      → claim sha256 bytes_to_hex token n ≡ some (lease, after)
      → Meanwhile m after
  released :
      {n : TokenManager} (lease : SessionTokenLease)
      → Meanwhile m n
      → Meanwhile m (release lease n).1
  taken : {n : TokenManager} (now : ℕ) → Meanwhile m n → Meanwhile m (take_current_stack n now).0
  renamed :
      {n : TokenManager} (name : String) → Meanwhile m n → Meanwhile m (set_device_name name n)
  adopted : {n : TokenManager} (name : String) → Meanwhile m n → Meanwhile m (adopt name n)
  begun :
      {n : TokenManager} (directory : TokenIssuerDirectory) (current : ℕ)
      → Meanwhile m n
      → Meanwhile m (begin_pass directory current n)
  settled : {n : TokenManager} (epoch : ℕ) → Meanwhile m n → Meanwhile m (settle epoch n)
  stocked :
      {n : TokenManager} (epoch : ℕ) (tokens : List Bytes)
      → Meanwhile m n
      → Meanwhile m (stock epoch tokens n)
  revoked : {n : TokenManager} → Meanwhile m n → Meanwhile m (revoke n)
  persisted : {n : TokenManager} → Meanwhile m n → Meanwhile m (persist n)

pub Meanwhile-Keeps : {m n : TokenManager} → Meanwhile m n → Keeps m n
Meanwhile-Keeps {m} idle = Keeps-refl m
Meanwhile-Keeps {m} (claimed {n} {after} sha256 hex token lease w e) =
    Keeps-trans m n after (Meanwhile-Keeps w) (Keeps-claim sha256 hex token n after lease e)
Meanwhile-Keeps {m} (released {n} lease w) =
    Keeps-trans m n ((release lease n).1) (Meanwhile-Keeps w) (Keeps-release lease n)
Meanwhile-Keeps {m} (taken {n} now w) =
    Keeps-trans m n ((take_current_stack n now).0) (Meanwhile-Keeps w)
      (Keeps-take_current_stack n now)
Meanwhile-Keeps {m} (renamed {n} name w) =
    Keeps-trans m n (set_device_name name n) (Meanwhile-Keeps w) (Keeps-set_device_name name n)
Meanwhile-Keeps {m} (adopted {n} name w) =
    Keeps-trans m n (adopt name n) (Meanwhile-Keeps w) (Keeps-adopt name n)
Meanwhile-Keeps {m} (begun {n} directory current w) =
    Keeps-trans m n (begin_pass directory current n) (Meanwhile-Keeps w)
      (Keeps-begin_pass directory current n)
Meanwhile-Keeps {m} (settled {n} epoch w) =
    Keeps-trans m n (settle epoch n) (Meanwhile-Keeps w) (Keeps-settle epoch n)
Meanwhile-Keeps {m} (stocked {n} epoch tokens w) =
    Keeps-trans m n (stock epoch tokens n) (Meanwhile-Keeps w) (Keeps-stock epoch tokens n)
Meanwhile-Keeps {m} (revoked {n} w) =
    Keeps-trans m n (revoke n) (Meanwhile-Keeps w) (Keeps-revoke n)
Meanwhile-Keeps {m} (persisted {n} w) =
    Keeps-trans m n (persist n) (Meanwhile-Keeps w) (Keeps-persist n)

-- A transport during whose requests the manager changes by its own operations alone.
pub record IsFair {World : Type 0} (transport : TokenTransport World) : Type 0 where
  pub fair_directory :
      (w : World) (m : TokenManager) → Meanwhile m (transport.get_directory w m).manager
  pub fair_register :
      (w : World) (m : TokenManager) (d : DeviceRegistration)
      → Meanwhile m (transport.register_device w m d).manager
  pub fair_mint :
      (w : World) (m : TokenManager) (directory : TokenIssuerDirectory) (epoch count : ℕ)
      (key : Bytes) (id : Option String)
      → Meanwhile m (transport.mint_epoch w m directory epoch count key id).manager
