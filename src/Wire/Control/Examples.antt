-- ===== src/Wire/Control/Examples.antt =====
-- The theorems on the setup stream at concrete inputs.
use warren_sdk_ts.Prelude.{
  ℕ, zero, suc, ◌≡◌, ◌↔◌, refl, List, [], ◌∷◌, ◌++◌, none, some, true, false, arith,
}
use warren_sdk_ts.Wire.Result.{ok}
use warren_sdk_ts.Wire.Control.{IpRequestV7, ip_assign}
use warren_sdk_ts.Wire.Control.Request.{encode_ip_request_v7}
use warren_sdk_ts.Wire.Control.Admission.{IsAdmissible, request_bytes, encode_ip_request_v7_iff}
use warren_sdk_ts.Wire.Control.Decode.{decode_control_message}
use warren_sdk_ts.Wire.Control.Replies.{RawMessage, reply_body, interpret}
use warren_sdk_ts.Wire.Cursor.At.{outcome}
use warren_sdk_ts.Wire.Control.RoundTrip.{decode_control_message-reply}

abbrev fill : ℕ → ℕ → List ℕ
fill zero b = []
fill (suc n) b = b ∷ fill n b

abbrev test_request : IpRequestV7
test_request = record {
  tokens = fill 354 5 ∷ fill 354 6 ∷ [];
  wants_ipv6 = true;
  prefer_ipv4 = some (0 ∷ 0 ∷ 0 ∷ 0 ∷ []);
  wants_daita = false;
}

test_IsAdmissible : IsAdmissible test_request
test_IsAdmissible = record {
  some_token = omega arith;
  few_tokens = omega arith;
  token_sizes = (refl, (refl, tt));
  address = refl;
}

encode_ip_request_v7_iff_example :
    (encode_ip_request_v7 test_request ≡ ok (request_bytes test_request))
    ↔ (IsAdmissible test_request × (request_bytes test_request ≡ request_bytes test_request))
encode_ip_request_v7_iff_example =
    encode_ip_request_v7_iff test_request (request_bytes test_request)

test_encode : encode_ip_request_v7 test_request ≡ ok (request_bytes test_request)
test_encode = encode_ip_request_v7_iff_example.1 (test_IsAdmissible, refl)

-- Texts and doubles as the bytes they come in.
abbrev raw : List ℕ → List ℕ
raw bytes = bytes

abbrev test_reply : RawMessage
test_reply = ip_assign (record {
  ipv4 = 10 ∷ 0 ∷ 0 ∷ 2 ∷ [];
  prefix_len = 24;
  gateway_ipv4 = 10 ∷ 0 ∷ 0 ∷ 1 ∷ [];
  ipv6 = none;
  prefix_len_v6 = 0;
  gateway_ipv6 = none;
  daita_spec = some (record {
    machine_specs = (1 ∷ 2 ∷ []) ∷ [];
    max_padding_frac = fill 8 0;
    max_blocking_frac = fill 8 1;
  });
})

decode_control_message-reply_example :
    decode_control_message raw raw (0xc0 ∷ 3 ∷ (reply_body test_reply ++ []))
    ≡ outcome [] (interpret raw raw test_reply)
decode_control_message-reply_example = decode_control_message-reply raw raw test_reply [] (record {
  ipv4 = refl;
  gateway_ipv4 = refl;
  ipv6 = tt;
  gateway_ipv6 = tt;
  daita_spec = record {
    count = omega arith;
    specs = (omega arith, tt);
    padding = refl;
    blocking = refl;
  };
})
