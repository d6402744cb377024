-- ===== src/Wire/Control/Request.antt =====
-- `encodeIpRequestV7` of packages/core/src/edge/control.ts.
use warren_sdk_ts.Prelude.{
  ℕ, List, [], ◌∷◌, ◌++◌, Option, none, some, Bool, true, false, length, ltb, ◌==◌, if◌then◌else◌,
}
use warren_sdk_ts.Prelude.Int.{pos}
use warren_sdk_ts.Wire.Result.{
  Result, ok, throw, ◌>>=◌, ◌>>◌, no_session_token, too_many_session_tokens, session_token_length,
  prefer_ipv4_length,
}
use warren_sdk_ts.Wire.Varint.{encode_leb128}
use warren_sdk_ts.Wire.Control.{
  IpRequestV7, control_first_byte, control_version_v3, ip_request_v7_variant, session_token_len,
  max_session_tokens,
}

unfoldable pub check_token_count : List (List ℕ) → Result (Unit {0})
check_token_count tokens =
    if length tokens == 0
    then throw no_session_token
    else if ltb max_session_tokens (length tokens)
    then throw too_many_session_tokens
    else ok tt

-- The first token of another length ends the loop.
unfoldable pub check_tokens : List (List ℕ) → Result (Unit {0})
check_tokens [] = ok tt
check_tokens (t ∷ tokens) =
    let rest = check_tokens tokens in
    if length t == session_token_len then rest else throw (session_token_length (length t))

unfoldable pub check_prefer_ipv4 : Option (List ℕ) → Result (Unit {0})
check_prefer_ipv4 none = ok tt
check_prefer_ipv4 (some address) = if length address == 4 then ok tt else throw prefer_ipv4_length

abbrev pub option_bytes : Option (List ℕ) → List ℕ
option_bytes none = 0 ∷ []
option_bytes (some bytes) = 1 ∷ bytes

abbrev pub bool_byte : Bool → ℕ
bool_byte true = 1
bool_byte false = 0

abbrev pub concat : List (List ℕ) → List ℕ
concat [] = []
concat (t ∷ tokens) = t ++ concat tokens

unfoldable pub encode_ip_request_v7 : IpRequestV7 → Result (List ℕ)
encode_ip_request_v7 params = do
  check_token_count params.tokens
  check_tokens params.tokens
  check_prefer_ipv4 params.prefer_ipv4
  variant ← encode_leb128 (pos ip_request_v7_variant)
  count ← encode_leb128 (pos (length params.tokens))
  ok (
      control_first_byte
      ∷ control_version_v3
      ∷ (variant
          ++ (option_bytes params.prefer_ipv4
              ++ (bool_byte params.wants_ipv6
                  ∷ (count ++ (concat params.tokens ++ (bool_byte params.wants_daita ∷ [])))))))
