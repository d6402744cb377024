-- ===== src/Wire/Control.antt =====
-- packages/core/src/edge/control.ts: the messages of the multi-hop setup stream.
pub mod Request
pub mod Decode
pub mod Replies
pub mod RoundTrip
pub mod Admission
mod Examples
use warren_sdk_ts.Prelude.{ℕ, List, Option, Bool}

abbrev pub control_first_byte : ℕ
control_first_byte = 0xc0

abbrev pub control_version_v3 : ℕ
control_version_v3 = 3

abbrev pub ip_request_v7_variant : ℕ
ip_request_v7_variant = 5

abbrev pub session_token_len : ℕ
session_token_len = 354

abbrev pub max_session_tokens : ℕ
max_session_tokens = 8

-- The argument of `encodeIpRequestV7`. An absent flag is `false`, and an absent or null address `none`.
pub record IpRequestV7 : Type 0 where
  pub tokens : List (List ℕ)
  pub wants_ipv6 : Bool
  pub prefer_ipv4 : Option (List ℕ)
  pub wants_daita : Bool

-- `Text` is what `TextDecoder` makes of bytes, and `Float` is a double.
pub record DaitaConfig (Text Float : Type 0) : Type 0 where
  pub machine_specs : List Text
  pub max_padding_frac : Float
  pub max_blocking_frac : Float

pub record IpAssign (Text Float : Type 0) : Type 0 where
  pub ipv4 : List ℕ
  pub prefix_len : ℕ
  pub gateway_ipv4 : List ℕ
  pub ipv6 : Option (List ℕ)
  pub prefix_len_v6 : ℕ
  pub gateway_ipv6 : Option (List ℕ)
  pub daita_spec : Option (DaitaConfig Text Float)

pub data ControlMessage (Text Float : Type 0) : Type 0 where
  ip_assign : IpAssign Text Float → ControlMessage Text Float
  ip_exhausted : ControlMessage Text Float
  rejected : ControlMessage Text Float
  exit_draining : ℕ → ℕ → ControlMessage Text Float
