-- ===== src/Extension/Client/Waiting.antt =====
-- What the events that come while a connect waits leave of it.
use warren_sdk_ts.Prelude.{◌≡◌, ◌⊎◌, inl, inr, refl, ◌∙◌, List, [], ◌∷◌, Bool, true, arith}
use warren_sdk_ts.Extension.Values.{ProxyValue}
use warren_sdk_ts.Extension.Routing.Chromium.{ProxySettings}
use warren_sdk_ts.Extension.Client.State.{
  Client, open_port, question_begins, question_ends, on_disconnect, Event, host_lost,
  question_begun, question_ended, happen, happens,
}

-- No question to a host begins.
abbrev pub IsUnasked : List Event → Type 0
IsUnasked [] = Unit {0}
IsUnasked (question_begun ∷ events) = ⊥
IsUnasked (host_lost ∷ events) = IsUnasked events
IsUnasked (question_ended ∷ events) = IsUnasked events

-- What waiting leaves of a connect: a host that is lost stays lost where no question begins.
pub record Waited (c d : Client) : Type 0 where
  pub connecting : d.connecting ≡ c.connecting
  pub endpoints : d.endpoints ≡ c.endpoints

pub record StaysLost (c d : Client) : Type 0 where
  pub waited : Waited c d
  pub auth : (d.port_dead ≡ true) ⊎ ((d.auth ≡ c.auth) × (d.port_dead ≡ c.port_dead))

module _ (is_firefox : Bool) (set_value : ProxySettings → ProxyValue → ProxySettings) where
  happen-StaysLost :
      (e : Event) (c : Client)
      → c.connecting ≡ true
      → IsUnasked (e ∷ [])
      → StaysLost c (happen is_firefox set_value e c)
  unfolding on_disconnect question_ends
  happen-StaysLost host_lost c h quiet = ground arith
  happen-StaysLost question_begun c h quiet = absurd quiet
  happen-StaysLost question_ended c h quiet = ground arith

  StaysLost-trans : (b c d : Client) → StaysLost b c → StaysLost c d → StaysLost b d
  StaysLost-trans b c d s t = record {
    waited = record {
      connecting = t.waited.connecting ∙ s.waited.connecting;
      endpoints = t.waited.endpoints ∙ s.waited.endpoints;
    };
    auth = elim t.auth [
      | inl lost ↦ inl lost
      | inr held ↦ elim s.auth [
        | inl lost ↦ inl (held.1 ∙ lost)
        | inr before ↦ inr (held.0 ∙ before.0, held.1 ∙ before.1)
      ]
    ];
  }

  pub happens-StaysLost :
      (events : List Event) (c : Client)
      → c.connecting ≡ true
      → IsUnasked events
      → StaysLost c (happens is_firefox set_value events c)
  unfolding happens
  happens-StaysLost [] c h quiet = record {
    waited = record { connecting = refl; endpoints = refl };
    auth = inr (refl, refl);
  }
  happens-StaysLost (question_begun ∷ events) c h quiet = absurd quiet
  happens-StaysLost (host_lost ∷ events) c h quiet =
      let s = happen-StaysLost host_lost c h tt in
      StaysLost-trans c (happen is_firefox set_value host_lost c) _ s (
        happens-StaysLost events (happen is_firefox set_value host_lost c) (s.waited.connecting ∙ h)
          quiet)
  happens-StaysLost (question_ended ∷ events) c h quiet =
      let s = happen-StaysLost question_ended c h tt in
      StaysLost-trans c (happen is_firefox set_value question_ended c) _ s (
        happens-StaysLost events (happen is_firefox set_value question_ended c)
          (s.waited.connecting ∙ h) quiet)

  happen-connecting :
      (e : Event) (c : Client) → (happen is_firefox set_value e c).connecting ≡ c.connecting
  unfolding on_disconnect question_begins question_ends open_port
  happen-connecting host_lost c = ground arith
  happen-connecting question_begun c = ground arith
  happen-connecting question_ended c = ground arith

  pub happens-connecting :
      (events : List Event) (c : Client)
      → (happens is_firefox set_value events c).connecting ≡ c.connecting
  unfolding happens
  happens-connecting [] c = refl
  happens-connecting (e ∷ events) c =
      happens-connecting events (happen is_firefox set_value e c) ∙ happen-connecting e c

pub open_port-connecting : (c : Client) → (open_port c).connecting ≡ c.connecting
unfolding open_port
open_port-connecting c = ground arith
