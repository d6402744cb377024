-- ===== src/Discovery/Relay.antt =====
-- packages/core/src/discovery/relay.ts.
use Prim.Native.String.{String}
use warren_sdk_ts.Prelude.{ℕ, List, Option, Bool, leb}

pub record Relay : Type 0 where
  pub endpoint_id_hex : String
  pub exit_id_hex : String
  pub country : String
  pub city : String
  pub weight : ℕ
  pub active : Bool
  pub ipv6_egress : Bool
  pub has_ipv4 : Bool
  pub has_ipv6 : Bool
  pub addrs : List String
  pub cover_domain : Option String

pub record VerifiedRelayList : Type 0 where
  pub generation : ℕ
  pub signed_at : ℕ
  pub expires_at : ℕ
  pub relays : List Relay
  pub server_pubkey_hex : String

unfoldable pub is_expired : VerifiedRelayList → ℕ → Bool
is_expired list now = leb list.expires_at now
