-- ===== src/Extension/Client/Connected.antt =====
-- How a connect ends, and how a reconnect on Chromium does.
use warren_sdk_ts.Prelude.{
  ℕ, ◌≡◌, ◌≢◌, inl, inr, refl, sym, ◌∙◌, List, Option, none, some, Bool, false, ◌||◌, arith, In,
}
use warren_sdk_ts.Discovery.Platform.{Checked, ok, fail}
use warren_sdk_ts.Split.{Text}
use warren_sdk_ts.Extension.Values.{ProxyValue}
use warren_sdk_ts.Extension.Routing.{ProxyAuth}
use warren_sdk_ts.Extension.Routing.Chromium.{ProxySettings}
use warren_sdk_ts.Extension.Client.State.{
  WarrenExtensionErrorCode, Endpoints, TunnelExit, Handler, Client, remove_handler,
}
use warren_sdk_ts.Extension.Client.Connect.{
  half_closes, ConnectRun, HostAnswer, connected, unexpected, ◌>>=◌, lift, arrive, take_answer,
  attempt, start, finish, connect,
}
use warren_sdk_ts.Extension.Client.Triples.{
  Ends, Triple, then_triple, modify_triple, Ends-else, neither,
}
use warren_sdk_ts.Extension.Client.Stages.{IsNumbered, IsBelow}
use warren_sdk_ts.Extension.Client.Restore.{IsUp, IsRestored, connect_settled}
use warren_sdk_ts.Extension.Client.Waiting.{IsUnasked}
use warren_sdk_ts.Extension.Client.Pointing.{
  Any, PointsAt, by_handler, by_settings, Begun, Alive, In-remove_listener, prepare-Begun,
  route_points,
}

-- A connect that has succeeded: the tunnel is up, and the client holds the endpoints and the credentials
-- that the host answered with, to which the browser is pointed with the split that was asked for.
pub record IsPointed (lower : Text → Text) (is_firefox : Bool) (run : ConnectRun) (c : Client)
    : Type 0 where
  pub served : Endpoints
  pub issued : ProxyAuth
  pub exit : Option TunnelExit
  pub answered : run.answer ≡ ok (connected served (some issued) exit)
  pub endpoints : c.endpoints ≡ some served
  pub credentials : c.auth ≡ some issued
  pub points : PointsAt lower is_firefox served run.split c

abbrev pub IsConnected : (Text → Text) → Bool → ConnectRun → Client → Type 0
IsConnected lower is_firefox run c = IsUp c × IsPointed lower is_firefox run c

module _ (lower : Text → Text) (is_firefox : Bool)
    (set_value : ProxySettings → ProxyValue → ProxySettings) (cleared : ProxySettings)
    (takes : (s : ProxySettings) (v : ProxyValue) → (set_value s v).value ≡ v) (run : ConnectRun)
    (quiet_set : IsUnasked run.at_set) (quiet_verify : IsUnasked run.at_verify) where
  kept_handler :
      (n : ℕ) (h : Handler) (held : Option Handler) (hs : List Handler)
      → IsBelow n held
      → h.id ≡ n
      → In h hs
      → In h (remove_handler held hs)
  kept_handler n h none hs below e i = i
  kept_handler n h (some old) hs below e i =
      In-remove_listener old.id h hs (λ q. let b = below in omega arith) i

  arrive_points :
      (n : ℕ) (e : Endpoints) (auth : ProxyAuth) (exit : Option TunnelExit) (held : Option Handler)
      → IsBelow n held
      → run.answer ≡ ok (connected e (some auth) exit)
      → (c : Client) → Alive lower is_firefox set_value cleared n e auth run.split takes c
      → IsPointed lower is_firefox run (arrive lower is_firefox set_value cleared held exit c)
  unfolding arrive
  arrive_points n e auth exit held below answer c (p, alive) = record {
    served = e;
    issued = auth;
    exit = exit;
    answered = answer;
    endpoints = p.knows.endpoints;
    credentials = elim p.knows.credentials [
      | inl dead ↦ absurd (let clash = sym alive ∙ dead in cc)
      | inr given ↦ given
    ];
    points = go p.points;
  }
    where
      go :
          PointsAt lower is_firefox e run.split c
          → PointsAt lower is_firefox e run.split
              (arrive lower is_firefox set_value cleared held exit c)
      go (by_handler h fox own listed socks same) =
          by_handler h fox own
            (kept_handler n h held c.browser.listeners below (p.number h own) listed) socks same
      go (by_settings http chromium listens value) = by_settings http chromium listens value

  take_answer_points :
      (n : ℕ) (held : Option Handler) (answer : HostAnswer)
      → IsBelow n held
      → run.answer ≡ ok answer
      → Triple
          (Begun lower is_firefox set_value cleared n)
          (take_answer lower is_firefox set_value cleared run held answer)
          (IsPointed lower is_firefox run)
          Any
  unfolding take_answer lift
  take_answer_points n held unexpected below e = record { ends = λ c q. tt }
  take_answer_points n held (connected endpoints none exit) below e = record { ends = λ c q. tt }
  take_answer_points n held (connected endpoints (some auth) exit) below e =
      then_triple
        (route_points lower is_firefox set_value cleared n endpoints auth run.split takes run refl
          quiet_set quiet_verify)
        (then_triple {Q = IsPointed lower is_firefox run}
          (modify_triple _ (arrive_points n endpoints auth exit held below e))
          (record { ends = λ c q. q }))

  attempt_points :
      (n : ℕ) (held : Option Handler)
      → IsBelow n held
      → Triple
          (Begun lower is_firefox set_value cleared n)
          (attempt lower is_firefox set_value cleared run held)
          (IsPointed lower is_firefox run)
          Any
  unfolding attempt
  attempt_points n held below =
      then_triple (prepare-Begun lower is_firefox set_value cleared n run)
        (from_answer run.answer refl)
    where
      from_answer :
          (r : Checked WarrenExtensionErrorCode HostAnswer)
          → run.answer ≡ r
          → Triple
              (Begun lower is_firefox set_value cleared n)
              (lift r >>= take_answer lower is_firefox set_value cleared run held)
              (IsPointed lower is_firefox run)
              Any
      from_answer (fail x) e = record { ends = λ c q. unfold lift ◌>>=◌ in tt }
      from_answer (ok answer) e = record {
        ends = λ c q. unfold lift ◌>>=◌ in (take_answer_points n held answer below e).ends c q;
      }

Ends-both :
    {A : Type 0} (Q R F : Client → Type 0) (r : Client × Checked WarrenExtensionErrorCode A)
    → Ends Q F r
    → Ends R Any r
    → Ends (λ c. Q c × R c) F r
Ends-both Q R F (c, ok a) q r = (q, r)
Ends-both Q R F (c, fail x) f r = f

module _ (lower : Text → Text) (is_firefox : Bool)
    (set_value : ProxySettings → ProxyValue → ProxySettings) (cleared : ProxySettings) where
  finish_points :
      (run : ConnectRun) (held : Option Handler)
      (r : Client × Checked WarrenExtensionErrorCode Endpoints)
      → Ends (IsPointed lower is_firefox run) Any r
      → Ends (IsPointed lower is_firefox run) Any (finish lower is_firefox set_value cleared held r)
  finish_points run held (c, fail x) h = tt
  finish_points run held (c, ok endpoints) h = record {
    served = h.served;
    issued = h.issued;
    exit = h.exit;
    answered = h.answered;
    endpoints = h.endpoints;
    credentials = h.credentials;
    points = go h.points;
  }
    where
      go :
          PointsAt lower is_firefox h.served run.split c
          → PointsAt lower is_firefox h.served run.split (record c { connecting = false })
      go (by_handler g fox own listed socks same) = by_handler g fox own listed socks same
      go (by_settings http chromium listens value) = by_settings http chromium listens value

  connect_points :
      (run : ConnectRun) (c : Client)
      → IsNumbered c
      → IsUnasked run.at_set
      → IsUnasked run.at_verify
      → c.connecting ≡ false
      → c.tunnel_up ≡ false
      → ((s : ProxySettings) (v : ProxyValue) → (set_value s v).value ≡ v)
      → Ends (IsPointed lower is_firefox run) Any (connect lower is_firefox set_value cleared run c)
  unfolding connect
  connect_points run c numbered quiet_set quiet_verify idle down takes =
      let begun : Client = start lower is_firefox set_value cleared c in
      Ends-else (IsPointed lower is_firefox run) Any (c.connecting || c.tunnel_up) _ _
        (neither c.connecting c.tunnel_up idle down)
        (finish_points run c.handler
          (attempt lower is_firefox set_value cleared run c.handler begun)
          ((attempt_points lower is_firefox set_value cleared takes run quiet_set quiet_verify
              c.handlers_made c.handler numbered.1).ends
            begun (record { connecting = refl; tunnel_down = down; next = refl; handler = refl })))

  pub connect-Ends :
      (run : ConnectRun) (c : Client)
      → IsNumbered c
      → run.hardening ≢ half_closes
      → IsUnasked run.at_set
      → IsUnasked run.at_verify
      → c.connecting ≡ false
      → c.tunnel_up ≡ false
      → ((s : ProxySettings) (v : ProxyValue) → (set_value s v).value ≡ v)
      → Ends
          (IsConnected lower is_firefox run)
          (IsRestored cleared c)
          (connect lower is_firefox set_value cleared run c)
  connect-Ends run c numbered whole quiet_set quiet_verify idle down takes =
      Ends-both IsUp (IsPointed lower is_firefox run) (IsRestored cleared c)
        (connect lower is_firefox set_value cleared run c)
        (connect_settled lower is_firefox set_value cleared run c numbered whole idle down takes)
        (connect_points run c numbered quiet_set quiet_verify idle down takes)
