-- ===== src/Extension/Client/Triples.antt =====
-- Steps of a connect with what holds before them, after them, and where they fail.
use warren_sdk_ts.Prelude.{◌≡◌, refl, ◌||◌, Bool, true, false, if◌then◌else◌}
use warren_sdk_ts.Discovery.Platform.{Checked, ok, fail}
use warren_sdk_ts.Extension.Client.State.{WarrenExtensionErrorCode, Client}
use warren_sdk_ts.Extension.Client.Connect.{Pass, settle, ◌>>=◌, ◌>>◌, modify, check, lift}

-- Where a step ends: with a value, or by an error.
abbrev pub Ends :
    {A : Type 0}
    → (Client → Type 0)
    → (Client → Type 0)
    → Client × Checked WarrenExtensionErrorCode A
    → Type 0
Ends Q F (c, ok a) = Q c
Ends Q F (c, fail e) = F c

pub record Triple {A : Type 0} (P : Client → Type 0) (m : Pass A) (Q F : Client → Type 0)
    : Type 0 where
  pub ends : (c : Client) → P c → Ends Q F (m c)

Ends-settle :
    {A B : Type 0} {Q R F : Client → Type 0} (r : Client × Checked WarrenExtensionErrorCode A)
    (f : A → Pass B)
    → Ends Q F r
    → ((a : A) → Triple Q (f a) R F)
    → Ends R F (settle r f)
Ends-settle (c, ok a) f h hf = (hf a).ends c h
Ends-settle (c, fail e) f h hf = h

module _ {A B : Type 0} {P Q R F : Client → Type 0} where
  pub then_triple :
      {m : Pass A} {k : Pass B} → Triple P m Q F → Triple Q k R F → Triple P (m >> k) R F
  unfolding ◌>>◌
  then_triple {m} {k} hm hk = record {
    ends = λ c h. Ends-settle (m c) (λ _. k) (hm.ends c h) (λ _. hk);
  }

  pub bind_triple :
      {m : Pass A} {f : A → Pass B}
      → Triple P m Q F
      → ((a : A) → Triple Q (f a) R F)
      → Triple P (m >>= f) R F
  unfolding ◌>>=◌
  bind_triple {m} {f} hm hf = record { ends = λ c h. Ends-settle (m c) f (hm.ends c h) hf }

pub modify_triple :
    {P Q F : Client → Type 0} (f : Client → Client)
    → ((c : Client) → P c → Q (f c))
    → Triple P (modify f) Q F
unfolding modify
modify_triple f h = record { ends = h }

module _ {P F : Client → Type 0} where
  pub check_triple :
      (test : Client → Bool) (e : WarrenExtensionErrorCode)
      → ((c : Client) → P c → F c)
      → Triple P (check test e) P F
  unfolding check
  check_triple test e h = record { ends = λ c p. go c p (test c) }
    where
      go :
          (c : Client) → P c → (b : Bool) → Ends {A = Unit {0}} P F (c, if b then ok tt else fail e)
      go c p true = p
      go c p false = h c p

  pub lift_triple :
      {A : Type 0} (r : Checked WarrenExtensionErrorCode A)
      → ((c : Client) → P c → F c)
      → Triple P (lift r) P F
  unfolding lift
  lift_triple {A} r h = record { ends = λ c p. go r c p }
    where
      go : (s : Checked WarrenExtensionErrorCode A) (c : Client) → P c → Ends P F (c, s)
      go (ok a) c p = p
      go (fail e) c p = h c p

pub Ends-else :
    {A : Type 0} (Q F : Client → Type 0) (b : Bool)
    (x y : Client × Checked WarrenExtensionErrorCode A)
    → b ≡ false
    → Ends Q F y
    → Ends Q F (if b then x else y)
Ends-else Q F true x y e h = absurd cc
Ends-else Q F false x y e h = h

pub neither : (a b : Bool) → a ≡ false → b ≡ false → (a || b) ≡ false
neither a b e f = rw (e, f) refl
