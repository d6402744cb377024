-- ===== src/Tokens/Manager/Refresh/Ledger.antt =====
-- Which epochs a pass settles, against an issuer whose answer to an epoch does not change during the
-- pass.
use Prim.Native.String.{String}
use text.Mathlib.Text.{◌==◌ as str_eq}
use warren_sdk_ts.Prelude.{
  ℕ, ◌≡◌, refl, inl, inr, List, [], ◌∷◌, ◌++◌, Option, none, some, Bool, true, false, ◌&&◌, ◌||◌,
  ◌==◌, ==_iff, ==_refl, ◌∙◌, All, Bool-cases, if◌then◌else◌,
}
use warren_sdk_ts.Tokens.Store.{Bytes, has_epoch, set_tokens, tokens_of}
use warren_sdk_ts.Tokens.Manager.{TokenManager, DeviceRegistration, persist}
use warren_sdk_ts.Tokens.Manager.Refresh.{
  api, edge, other, Answer, answered, threw, TokenIssuerDirectory, Reply, TokenTransport, PassState,
  Pass, return, settle_with, try, modify, replied, settle, stock, is_unauthorized,
  answers_every_epoch, is_already_issued, mint, id_of, mint_again, mint_as_device, on_mint_error,
  mint_all,
}

-- The answers that settle an epoch: a batch, and the issuer's refusal to issue it twice.
abbrev pub is_definitive : Answer (List Bytes) → Bool
is_definitive (answered tokens) = true
is_definitive (threw (api code status)) = false
is_definitive (threw (edge code reason)) = is_already_issued reason
is_definitive (threw other) = false

-- The answers that end a pass.
abbrev pub is_fatal : Answer (List Bytes) → Bool
is_fatal (threw (api code status)) =
    str_eq code "device_revoked" || (is_unauthorized status || answers_every_epoch code)
is_fatal x = false

-- Every request to mint leaves the manager as it is and is answered as `issuer` says.
pub record IsSteady {World : Type 0} (transport : TokenTransport World)
    (issuer : ℕ → Answer (List Bytes)) : Type 0 where
  pub same_manager :
      (w : World) (m : TokenManager) (directory : TokenIssuerDirectory) (epoch count : ℕ)
      (key : Bytes) (id : Option String)
      → (transport.mint_epoch w m directory epoch count key id).manager ≡ m
  pub same_answer :
      (w : World) (m : TokenManager) (directory : TokenIssuerDirectory) (epoch count : ℕ)
      (key : Bytes) (id : Option String)
      → (transport.mint_epoch w m directory epoch count key id).answer ≡ issuer epoch

-- A manager that may go on minting, with no device.
pub record IsLive (m : TokenManager) : Type 0 where
  pub not_revoked : m.revoked ≡ false
  pub no_device : m.device ≡ none

abbrev settled_by : Bool → ℕ → List ℕ → List ℕ
settled_by definitive epoch settled = if definitive then epoch ∷ settled else settled

pick :
    (b : Bool) (m n : TokenManager) (P : TokenManager → Type 0)
    → b ≡ false
    → P n
    → P (if b then m else n)
pick true m n P e p = absurd cc
pick false m n P e p = p

module _ {World : Type 0} (transport : TokenTransport World) where
  abbrev mint_one : TokenIssuerDirectory → Bytes → ℕ → Pass World (Unit {0})
  mint_one directory key epoch =
      try (mint_as_device transport directory epoch key) (λ tokens. modify (stock epoch tokens))
        (on_mint_error transport epoch)

  -- One epoch is over and the pass goes on.
  data Over (definitive : Bool) (epoch : ℕ) (m : TokenManager)
      : PassState World × Answer (Unit {0}) → Type 0 where
    over :
        (s : PassState World)
        → s.manager.settled ≡ settled_by definitive epoch m.settled
        → IsLive s.manager
        → Over definitive epoch m (s, answered tt)

  after_reply :
      (directory : TokenIssuerDirectory) (key : Bytes) (epoch : ℕ) (s : PassState World)
      (answer : Answer (List Bytes))
      → IsLive s.manager
      → is_fatal answer ≡ false
      → Over (is_definitive answer) epoch s.manager (
          settle_with
            (settle_with (s, answer) return (mint_again transport directory epoch key none))
            (λ tokens. modify (stock epoch tokens))
            (on_mint_error transport epoch))
  unfolding mint_again on_mint_error stock settle
  after_reply directory key epoch s (answered tokens) live f =
      let n : TokenManager = record (settle epoch s.manager) {
        store = set_tokens epoch (tokens_of epoch s.manager.store ++ tokens) s.manager.store;
      } in
      over (record s { manager = stock epoch tokens s.manager })
        (pick s.manager.revoked s.manager n (λ n. n.settled ≡ epoch ∷ s.manager.settled)
          live.not_revoked refl)
        (pick s.manager.revoked s.manager n IsLive live.not_revoked
          (record { not_revoked = live.not_revoked; no_device = live.no_device }))
  after_reply directory key epoch s (threw (api code status)) live f =
      elim (Bool-cases (str_eq code "device_revoked")) [
        | inl e ↦ absurd (let g = rw e at f in cc)
        | inr e ↦ elim (Bool-cases (is_unauthorized status || answers_every_epoch code)) [
          | inl g ↦ absurd (let h = rw (e, g) at f in cc)
          | inr g ↦ rw (e, g) (over s refl live)
        ]
      ]
  after_reply directory key epoch s (threw (edge code reason)) live f =
      elim (Bool-cases (is_already_issued reason)) [
        | inl e ↦ rw e (
            over (record s { manager = settle epoch s.manager }) refl
              (record { not_revoked = live.not_revoked; no_device = live.no_device }))
        | inr e ↦ rw e (over s refl live)
      ]
  after_reply directory key epoch s (threw other) live f = over s refl live

  mint_one-Over :
      (issuer : ℕ → Answer (List Bytes)) (directory : TokenIssuerDirectory) (key : Bytes)
      (epoch : ℕ) (s : PassState World)
      → IsSteady transport issuer
      → IsLive s.manager
      → is_fatal (issuer epoch) ≡ false
      → Over (is_definitive (issuer epoch)) epoch s.manager (mint_one directory key epoch s)
  unfolding mint_as_device mint
  mint_one-Over issuer directory key epoch s steady live f =
      go s.manager.device
        (transport.mint_epoch s.world s.manager directory epoch directory.quota_per_epoch key
          (id_of transport s.manager.device))
        live.no_device
        (steady.same_manager s.world s.manager directory epoch directory.quota_per_epoch key
          (id_of transport s.manager.device))
        (steady.same_answer s.world s.manager directory epoch directory.quota_per_epoch key
          (id_of transport s.manager.device))
    where
      from :
          (q r : PassState World × Answer (List Bytes))
          → q ≡ r
          → Over (is_definitive (issuer epoch)) epoch s.manager (
              settle_with
                (settle_with r return (mint_again transport directory epoch key none))
                (λ tokens. modify (stock epoch tokens))
                (on_mint_error transport epoch))
          → Over (is_definitive (issuer epoch)) epoch s.manager (
              settle_with
                (settle_with q return (mint_again transport directory epoch key none))
                (λ tokens. modify (stock epoch tokens))
                (on_mint_error transport epoch))
      from q r e h = rw e h

      go :
          (d : Option DeviceRegistration) (r : Reply World (List Bytes))
          → d ≡ none
          → r.manager ≡ s.manager
          → r.answer ≡ issuer epoch
          → Over (is_definitive (issuer epoch)) epoch s.manager (
              settle_with
                (settle_with (replied s r) return (mint_again transport directory epoch key d))
                (λ tokens. modify (stock epoch tokens))
                (on_mint_error transport epoch))
      go (some d) r e same answer = absurd cc
      go none r e same answer =
          let reply : replied s r ≡ (record s { world = r.world }, issuer epoch) = λ i.
            (record { world = r.world; manager = same i; registered = s.registered }, answer i) in
          from _ _ reply
            (after_reply directory key epoch (record s { world = r.world }) (issuer epoch) live f)

  -- No answer to one of `epochs` ends the pass.
  abbrev pub NoneFatal : (ℕ → Answer (List Bytes)) → List ℕ → Type 0
  NoneFatal issuer = All (λ epoch. is_fatal (issuer epoch) ≡ false)

  ledger_step :
      (issuer : ℕ → Answer (List Bytes)) (e epoch : ℕ) (epochs settled : List ℕ)
      → (has_epoch e (settled_by (is_definitive (issuer epoch)) epoch settled)
          || (has_epoch e epochs && is_definitive (issuer e)))
        ≡ (has_epoch e settled || (has_epoch e (epoch ∷ epochs) && is_definitive (issuer e)))
  unfolding has_epoch
  ledger_step issuer e epoch epochs settled = elim (Bool-cases (epoch == e)) [
    | inl h ↦
        let same : epoch ≡ e = (==_iff epoch e).0 h in
        rw (h, same) (mine (is_definitive (issuer e)))
    | inr h ↦ rw h (theirs h (is_definitive (issuer epoch)))
  ]
    where
      mine :
          (d : Bool)
          → (has_epoch e (settled_by d e settled) || (has_epoch e epochs && d))
            ≡ (has_epoch e settled || d)
      mine true = rw (==_refl e, or_true) refl
        where
          or_true : (has_epoch e settled || true) ≡ true
          or_true = elim (Bool-cases (has_epoch e settled)) [
            | inl h ↦ rw h refl
            | inr h ↦ rw h refl
          ]
      mine false = elim (Bool-cases (has_epoch e epochs)) [ inl h ↦ rw h refl | inr h ↦ rw h refl ]

      theirs :
          (epoch == e) ≡ false
          → (d : Bool)
          → (has_epoch e (settled_by d epoch settled)
              || (has_epoch e epochs && is_definitive (issuer e)))
            ≡ (has_epoch e settled || (has_epoch e epochs && is_definitive (issuer e)))
      theirs h true = rw h refl
      theirs h false = refl

  -- Against an issuer whose answers do not change and stop no pass, a live manager without a device
  -- mints its targets to the end, and has settled after it exactly what was settled before it and the
  -- targets answered with a batch or `already_issued`: any other refusal leaves its epoch to be asked
  -- for again.
  pub mint_all-settled :
      (issuer : ℕ → Answer (List Bytes)) (directory : TokenIssuerDirectory) (key : Bytes)
      (epochs : List ℕ) (s : PassState World) (e : ℕ)
      → IsSteady transport issuer
      → IsLive s.manager
      → NoneFatal issuer epochs
      → ((mint_all transport directory key epochs s).1 ≡ answered tt)
        × (has_epoch e (mint_all transport directory key epochs s).0.manager.settled
            ≡ (has_epoch e s.manager.settled || (has_epoch e epochs && is_definitive (issuer e))))
  unfolding mint_all has_epoch persist
  mint_all-settled issuer directory key [] s e steady live h = (refl, or_false)
    where
      or_false : has_epoch e s.manager.settled ≡ (has_epoch e s.manager.settled || false)
      or_false = elim (Bool-cases (has_epoch e s.manager.settled)) [
        | inl h ↦ rw h refl
        | inr h ↦ rw h refl
      ]
  mint_all-settled issuer directory key (epoch ∷ epochs) s e steady live (f, h) =
      go _ (mint_one-Over issuer directory key epoch s steady live f)
        (λ t l. mint_all-settled issuer directory key epochs t e steady l h)
    where
      go :
          (r : PassState World × Answer (Unit {0}))
          → Over (is_definitive (issuer epoch)) epoch s.manager r
          → ((t : PassState World)
              → IsLive t.manager
              → ((mint_all transport directory key epochs t).1 ≡ answered tt)
                × (has_epoch e (mint_all transport directory key epochs t).0.manager.settled ≡ (
                    has_epoch e t.manager.settled
                    || (has_epoch e epochs && is_definitive (issuer e)))))
          → let q =
              settle_with r (λ a. mint_all transport directory key epochs) (λ x t. (t, threw x)) in
            (q.1 ≡ answered tt)
            × (has_epoch e q.0.manager.settled ≡ (
                has_epoch e s.manager.settled
                || (has_epoch e (epoch ∷ epochs) && is_definitive (issuer e))))
      go r (over t now_settled still_live) rest =
          let (a, b) = rest t still_live in
          let step = ledger_step issuer e epoch epochs s.manager.settled in
          (a, b ∙ (rw now_settled step))
