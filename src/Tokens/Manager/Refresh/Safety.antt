-- ===== src/Tokens/Manager/Refresh/Safety.antt =====
-- A pass keeps the invariant of its manager, whatever other calls do while its requests are out.
use Prim.Native.String.{String}
use text.Mathlib.Text.{◌==◌ as str_eq}
use warren_sdk_ts.Prelude.{
  ℕ, ◌≡◌, List, [], ◌∷◌, Option, none, some, Bool, true, false, not, ◌||◌, if◌then◌else◌,
}
use warren_sdk_ts.Tokens.Store.{Bytes}
use warren_sdk_ts.Tokens.Manager.{TokenManager, DeviceRegistration, persist, revoke}
use warren_sdk_ts.Tokens.Manager.Sound.{
  IsSound, Keeps, Keeps-refl, Keeps-trans, Keeps-persist, Keeps-revoke,
}
use warren_sdk_ts.Tokens.Manager.Refresh.{
  Failure, api, edge, other, Answer, answered, threw, TokenIssuerDirectory, TokenTransport,
  PassState, Pass, throw, return, settle_with, try, ◌>>=◌, ◌>>◌, modify, from_answer, adopt,
  begin_pass, settle, stock, is_unauthorized, answers_every_epoch, is_already_issued,
  is_unregistered, current_epoch, register, fetch_directory, mint, id_of, on_registration_error,
  register_at_start, mark_registered, register_again, mint_again, mint_as_device, on_mint_error,
  mint_all, mint_targets, refresh_with, refresh, start, targets,
}
use warren_sdk_ts.Tokens.Manager.Refresh.Fair.{
  IsFair, Meanwhile-Keeps, Keeps-adopt, Keeps-begin_pass, Keeps-settle, Keeps-stock,
}

module _ {World : Type 0} where
  -- A step of a pass that keeps the manager's invariant.
  abbrev KeepsAll : {A : Type 0} → Pass World A → Type 0
  KeepsAll p = (s : PassState World) → Keeps s.manager (p s).0.manager

  Keeps-after :
      {A B : Type 0} (m : TokenManager) (r : PassState World × Answer A) (f : A → Pass World B)
      (g : Failure → Pass World B)
      → Keeps m r.0.manager
      → ((a : A) → KeepsAll (f a))
      → ((x : Failure) → KeepsAll (g x))
      → Keeps m (settle_with r f g).0.manager
  Keeps-after m (s, answered a) f g k hf hg = Keeps-trans m s.manager ((f a s).0.manager) k (hf a s)
  Keeps-after m (s, threw x) f g k hf hg = Keeps-trans m s.manager ((g x s).0.manager) k (hg x s)

  keeps_throw : (A : Type 0) (x : Failure) → KeepsAll (throw {World = World} {A = A} x)
  keeps_throw A x s = Keeps-refl s.manager

  keeps_return : {A : Type 0} (a : A) → KeepsAll (return {World = World} {A = A} a)
  keeps_return a s = Keeps-refl s.manager

  keeps_try :
      {A B : Type 0} (p : Pass World A) (f : A → Pass World B) (g : Failure → Pass World B)
      → KeepsAll p
      → ((a : A) → KeepsAll (f a))
      → ((x : Failure) → KeepsAll (g x))
      → KeepsAll (try p f g)
  keeps_try p f g hp hf hg s = Keeps-after s.manager (p s) f g (hp s) hf hg

  keeps_bind :
      {A B : Type 0} (p : Pass World A) (f : A → Pass World B)
      → KeepsAll p
      → ((a : A) → KeepsAll (f a))
      → KeepsAll (p >>= f)
  keeps_bind {B} p f hp hf = keeps_try p f throw hp hf (keeps_throw B)

  keeps_then :
      {A B : Type 0} (p : Pass World A) (q : Pass World B)
      → KeepsAll p
      → KeepsAll q
      → KeepsAll (p >> q)
  keeps_then {B} p q hp hq = keeps_try p (λ a. q) throw hp (λ a. hq) (keeps_throw B)

  Keeps-modify :
      (f : TokenManager → TokenManager)
      → ((m : TokenManager) → Keeps m (f m))
      → KeepsAll (modify {World = World} f)
  Keeps-modify f h s = h s.manager

  Keeps-rethrow :
      (f : TokenManager → TokenManager) (x : Failure)
      → ((m : TokenManager) → Keeps m (f m))
      → KeepsAll {A = Unit {0}} (modify f >> throw x)
  Keeps-rethrow f x h =
      keeps_then {B = Unit {0}} (modify f) (throw x) (Keeps-modify f h) (keeps_throw (Unit {0}) x)

  keeps_if :
      {A : Type 0} (b : Bool) (p q : Pass World A)
      → KeepsAll p
      → KeepsAll q
      → KeepsAll (if b then p else q)
  keeps_if true p q hp hq = hp
  keeps_if false p q hp hq = hq

module _ {World : Type 0} (transport : TokenTransport World) (fair : IsFair transport) where
  keeps_register : (d : DeviceRegistration) → KeepsAll (register transport d)
  unfolding register
  keeps_register d s = Meanwhile-Keeps (fair.fair_register s.world s.manager d)

  keeps_directory : KeepsAll (fetch_directory transport)
  unfolding fetch_directory
  keeps_directory s = Meanwhile-Keeps (fair.fair_directory s.world s.manager)

  keeps_mint :
      (directory : TokenIssuerDirectory) (epoch : ℕ) (key : Bytes) (id : Option String)
      → KeepsAll (mint transport directory epoch key id)
  unfolding mint
  keeps_mint directory epoch key id s =
      Meanwhile-Keeps
        (fair.fair_mint s.world s.manager directory epoch directory.quota_per_epoch key id)

  keeps_registration_error : (x : Failure) → KeepsAll (on_registration_error transport x)
  unfolding on_registration_error
  keeps_registration_error (api code status) =
      keeps_if (str_eq code "device_revoked") _ _
        (Keeps-rethrow revoke (api code status) Keeps-revoke)
        (keeps_if (str_eq code "device_limit_reached") _ _
          (keeps_throw (Unit {0}) (api code status)) (keeps_return tt))
  keeps_registration_error (edge code reason) = keeps_return tt
  keeps_registration_error other = keeps_return tt

  keeps_start : (d : Option DeviceRegistration) → KeepsAll (register_at_start transport d)
  unfolding register_at_start
  keeps_start none = keeps_return tt
  keeps_start (some d) =
      keeps_try (register transport d) _ _ (keeps_register d)
        (λ name. Keeps-modify (adopt name) (Keeps-adopt name)) keeps_registration_error

  keeps_register_again :
      (directory : TokenIssuerDirectory) (epoch : ℕ) (key : Bytes) (d : DeviceRegistration)
      → KeepsAll (register_again transport directory epoch key d)
  unfolding register_again
  keeps_register_again directory epoch key d =
      keeps_bind (register transport d) _ (keeps_register d) (λ name.
        keeps_then (modify (adopt name)) (mint transport directory epoch key (some d.device_id))
          (Keeps-modify (adopt name) (Keeps-adopt name))
          (keeps_mint directory epoch key (some d.device_id)))

  keeps_mint_again :
      (directory : TokenIssuerDirectory) (epoch : ℕ) (key : Bytes) (d : Option DeviceRegistration)
      (x : Failure)
      → KeepsAll (mint_again transport directory epoch key d x)
  unfolding mint_again mark_registered
  keeps_mint_again directory epoch key none x s = Keeps-refl s.manager
  keeps_mint_again directory epoch key (some d) x s =
      keeps_if (not (is_unregistered x) || s.registered) (throw x)
        (mark_registered transport >> register_again transport directory epoch key d)
        (keeps_throw (List Bytes) x)
        (keeps_then (mark_registered transport) (register_again transport directory epoch key d)
          (λ t. Keeps-refl t.manager) (keeps_register_again directory epoch key d))
        s

  keeps_mint_as_device :
      (directory : TokenIssuerDirectory) (epoch : ℕ) (key : Bytes)
      → KeepsAll (mint_as_device transport directory epoch key)
  unfolding mint_as_device
  keeps_mint_as_device directory epoch key s =
      let d = s.manager.device in
      keeps_try (mint transport directory epoch key (id_of transport d)) return
        (mint_again transport directory epoch key d)
        (keeps_mint directory epoch key (id_of transport d)) keeps_return
        (keeps_mint_again directory epoch key d) s

  keeps_mint_error : (epoch : ℕ) (x : Failure) → KeepsAll (on_mint_error transport epoch x)
  unfolding on_mint_error
  keeps_mint_error epoch (api code status) =
      keeps_if (str_eq code "device_revoked") _ _
        (Keeps-rethrow revoke (api code status) Keeps-revoke)
        (keeps_if (is_unauthorized status || answers_every_epoch code) _ _
          (Keeps-rethrow persist (api code status) Keeps-persist) (keeps_return tt))
  keeps_mint_error epoch (edge code reason) =
      keeps_if (is_already_issued reason) _ _ (Keeps-modify (settle epoch) (Keeps-settle epoch))
        (keeps_return tt)
  keeps_mint_error epoch other = keeps_return tt

  keeps_mint_all :
      (directory : TokenIssuerDirectory) (key : Bytes) (epochs : List ℕ)
      → KeepsAll (mint_all transport directory key epochs)
  unfolding mint_all
  keeps_mint_all directory key [] = Keeps-modify persist Keeps-persist
  keeps_mint_all directory key (epoch ∷ epochs) =
      keeps_then _ _
        (keeps_try (mint_as_device transport directory epoch key)
          (λ tokens. modify (stock epoch tokens)) (on_mint_error transport epoch)
          (keeps_mint_as_device directory epoch key)
          (λ tokens. Keeps-modify (stock epoch tokens) (Keeps-stock epoch tokens))
          (keeps_mint_error epoch))
        (keeps_mint_all directory key epochs)

  keeps_refresh_with : (key : Bytes) (now : ℕ) → KeepsAll (refresh_with transport key now)
  unfolding refresh_with mint_targets
  keeps_refresh_with key now s =
      keeps_then (register_at_start transport s.manager.device) _ (keeps_start s.manager.device)
        (keeps_bind (fetch_directory transport) _ keeps_directory (λ directory.
          keeps_bind (from_answer (current_epoch directory now)) _ (λ t. Keeps-refl t.manager)
            (λ current.
              keeps_then (modify (begin_pass directory current))
                (mint_targets transport directory key current)
                (Keeps-modify (begin_pass directory current) (Keeps-begin_pass directory current))
                (λ t.
                  keeps_mint_all directory key (targets directory.keys current t.manager.settled)
                    t))))
        s

  -- Whatever the issuer and the registry answer, and whatever other calls do to the manager while the
  -- requests of a pass are out, the pass never takes a revocation back, and if a revoked manager held
  -- nothing before the pass, in its store or persisted, a revoked manager holds nothing after it.
  pub refresh-IsSound :
      (now : ℕ) (world : World) (m : TokenManager)
      → IsSound m
      → IsSound (refresh transport now world m).0.manager
        × (m.revoked ≡ true → (refresh transport now world m).0.manager.revoked ≡ true)
  unfolding refresh
  refresh-IsSound now world m h = let (a, b) = keeps in (a h, b)
    where
      go :
          (key : Option Bytes) (b : Bool)
          → Keeps m
              (let r : PassState World × Answer (Unit {0}) = elim key [
                | none ↦ (start transport world m, threw (edge "no_blinding_key" none))
                | some k ↦
                    if b
                    then (start transport world m, threw (api "device_revoked" (some 403)))
                    else refresh_with transport k now (start transport world m)
              ] in
                r).0.manager
      go none b = Keeps-refl m
      go (some k) true = Keeps-refl m
      go (some k) false = keeps_refresh_with k now (start transport world m)

      keeps : Keeps m (refresh transport now world m).0.manager
      keeps = go m.blinding_key m.revoked
