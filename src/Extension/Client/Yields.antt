-- ===== src/Extension/Client/Yields.antt =====
-- Steps of a connect that give a value, and what quiet events leave of a connect.
use warren_sdk_ts.Prelude.{
  ◌≡◌, refl, ap, ◌∙◌, List, [], ◌∷◌, Bool, true, false, if◌then◌else◌, arith,
}
use warren_sdk_ts.Discovery.Platform.{Checked, ok}
use warren_sdk_ts.Extension.Values.{ProxyValue}
use warren_sdk_ts.Extension.Routing.Chromium.{ProxySettings}
use warren_sdk_ts.Extension.Client.State.{
  WarrenExtensionErrorCode, Client, open_port, question_begins, question_ends, Event, host_lost,
  question_begun, question_ended, happens,
}
use warren_sdk_ts.Extension.Client.Connect.{Pass, ◌>>=◌, ◌>>◌, modify, check, lift}

pub else_branch : {A : Type 0} (b : Bool) (x y : A) → b ≡ false → (if b then x else y) ≡ y
else_branch true x y e = absurd cc
else_branch false x y e = refl

-- From the states of P, a step gives the value and a state of Q.
pub record Yields {A : Type 0} (P : Client → Type 0) (m : Pass A) (a : A) (Q : Client → Type 0)
    : Type 0 where
  pub ends : (c : Client) → P c → (d : Client) × (m c ≡ (d, ok a)) × Q d

module _ {A B : Type 0} {P Q R : Client → Type 0} {a : A} {b : B} where
  pub then_yields :
      {m : Pass A} {k : Pass B} → Yields P m a Q → Yields Q k b R → Yields P (m >> k) b R
  unfolding ◌>>◌
  then_yields {m} {k} hm hk = record {
    ends = λ c p. let (d, e, q) = hm.ends c p in let (d', e', r) = hk.ends d q in (d', rw e e', r);
  }

  pub bind_yields :
      {m : Pass A} (f : A → Pass B) → Yields P m a Q → Yields Q (f a) b R → Yields P (m >>= f) b R
  unfolding ◌>>=◌
  bind_yields {m} f hm hf = record {
    ends = λ c p. let (d, e, q) = hm.ends c p in let (d', e', r) = hf.ends d q in (d', rw e e', r);
  }

pub modify_yields :
    {P Q : Client → Type 0} (f : Client → Client)
    → ((c : Client) → P c → Q (f c))
    → Yields P (modify f) tt Q
unfolding modify
modify_yields f h = record { ends = λ c p. (f c, refl, h c p) }

module _ {P : Client → Type 0} where
  pub check_yields :
      (test : Client → Bool) (e : WarrenExtensionErrorCode)
      → ((c : Client) → P c → test c ≡ true)
      → Yields P (check test e) tt P
  unfolding check
  check_yields test e h = record { ends = λ c p. (c, rw (h c p) refl, p) }

  pub lift_yields :
      {A : Type 0} (r : Checked WarrenExtensionErrorCode A) (a : A)
      → r ≡ ok a
      → Yields P (lift r) a P
  unfolding lift
  lift_yields r a e = record { ends = λ c p. (c, ap (λ s. (c, s)) e, p) }

-- No event is the loss of the host.
abbrev pub IsQuiet : List Event → Type 0
IsQuiet [] = Unit {0}
IsQuiet (host_lost ∷ events) = ⊥
IsQuiet (question_begun ∷ events) = IsQuiet events
IsQuiet (question_ended ∷ events) = IsQuiet events

-- What quiet events leave of a connect.
pub record Quietly (c d : Client) : Type 0 where
  pub browser : d.browser ≡ c.browser
  pub endpoints : d.endpoints ≡ c.endpoints
  pub auth : d.auth ≡ c.auth
  pub connecting : d.connecting ≡ c.connecting
  pub port_dead : c.port_dead ≡ false → d.port_dead ≡ false

module _ (set_value : ProxySettings → ProxyValue → ProxySettings) where
  question_begins-Quietly : (c : Client) → Quietly c (question_begins c)
  unfolding question_begins open_port
  question_begins-Quietly c = ground arith

  question_ends-Quietly : (c : Client) → Quietly c (question_ends c)
  unfolding question_ends
  question_ends-Quietly c = ground arith

  Quietly-trans : (b c d : Client) → Quietly b c → Quietly c d → Quietly b d
  Quietly-trans b c d s t = record {
    browser = t.browser ∙ s.browser;
    endpoints = t.endpoints ∙ s.endpoints;
    auth = t.auth ∙ s.auth;
    connecting = t.connecting ∙ s.connecting;
    port_dead = λ h. t.port_dead (s.port_dead h);
  }

  pub happens-Quietly :
      (events : List Event) (c : Client)
      → IsQuiet events
      → Quietly c (happens false set_value events c)
  unfolding happens
  happens-Quietly [] c h = record {
    browser = refl;
    endpoints = refl;
    auth = refl;
    connecting = refl;
    port_dead = λ p. p;
  }
  happens-Quietly (host_lost ∷ events) c h = absurd h
  happens-Quietly (question_begun ∷ events) c h =
      Quietly-trans c (question_begins c) (happens false set_value events (question_begins c))
        (question_begins-Quietly c) (happens-Quietly events (question_begins c) h)
  happens-Quietly (question_ended ∷ events) c h =
      Quietly-trans c (question_ends c) (happens false set_value events (question_ends c))
        (question_ends-Quietly c) (happens-Quietly events (question_ends c) h)
