-- ===== src/Wire/Control/Admission.antt =====
-- What `encodeIpRequestV7` writes, and when it refuses.
use warren_sdk_ts.Prelude.{
  ℕ, ◌+◌, ◌*◌, ◌≤◌, ◌≡◌, ◌↔◌, refl, sym, ◌∙◌, List, [], ◌∷◌, ◌++◌, Option, none, some, arith,
  length, length-append, All,
}
use warren_sdk_ts.Prelude.Int.{pos}
use warren_sdk_ts.Wire.Result.{Result, ok, ok-injective, >>-eq-ok, ◌>>=◌}
use warren_sdk_ts.Wire.Varint.{encode_leb128}
use warren_sdk_ts.Wire.Varint.Encode.{encode_leb128-pos, emitted-small}
use warren_sdk_ts.Wire.Control.{
  IpRequestV7, control_first_byte, control_version_v3, ip_request_v7_variant, session_token_len,
  max_session_tokens,
}
use warren_sdk_ts.Wire.Control.Request.{
  check_token_count, check_tokens, check_prefer_ipv4, option_bytes, bool_byte, concat,
  encode_ip_request_v7,
}

abbrev pub FitsIpv4 : Option (List ℕ) → Type 0
FitsIpv4 none = Unit
FitsIpv4 (some address) = length address ≡ 4

-- A request that an exit can read: one to eight tokens of 354 bytes, and an address of four.
pub record IsAdmissible (params : IpRequestV7) : Type 0 where
  pub some_token : 1 ≤ length params.tokens
  pub few_tokens : length params.tokens ≤ max_session_tokens
  pub token_sizes : All (λ t. length t ≡ session_token_len) params.tokens
  pub address : FitsIpv4 params.prefer_ipv4

-- The frozen layout, with the two varints written out.
unfoldable pub request_bytes : IpRequestV7 → List ℕ
request_bytes params =
    0xc0
    ∷ 3
    ∷ 5
    ∷ (option_bytes params.prefer_ipv4
        ++ (bool_byte params.wants_ipv6
            ∷ length params.tokens
            ∷ (concat params.tokens ++ (bool_byte params.wants_daita ∷ []))))

check_token_count_iff :
    (tokens : List (List ℕ))
    → (check_token_count tokens ≡ ok tt)
      ↔ ((1 ≤ length tokens) × (length tokens ≤ max_session_tokens))
unfolding check_token_count
check_token_count_iff tokens = (λ e. ground arith, λ h. ground arith)

check_tokens_iff :
    (tokens : List (List ℕ))
    → (check_tokens tokens ≡ ok tt) ↔ All (λ t. length t ≡ session_token_len) tokens
unfolding check_tokens
check_tokens_iff [] = (λ e. tt, λ h. refl)
check_tokens_iff (t ∷ tokens) = (
  λ e. ground (arith, (check_tokens_iff tokens).0),
  λ h. ground (arith, (check_tokens_iff tokens).1 h.1),
)

check_prefer_ipv4_iff : (p : Option (List ℕ)) → (check_prefer_ipv4 p ≡ ok tt) ↔ FitsIpv4 p
unfolding check_prefer_ipv4
check_prefer_ipv4_iff none = (λ e. tt, λ h. refl)
check_prefer_ipv4_iff (some address) = (λ e. ground arith, λ h. ground arith)

-- What is left of the encoder once the checks have passed.
written : IpRequestV7 → Result (List ℕ)
written params = do
  variant ← encode_leb128 (pos ip_request_v7_variant)
  count ← encode_leb128 (pos (length params.tokens))
  ok (
      control_first_byte
      ∷ control_version_v3
      ∷ (variant
          ++ (option_bytes params.prefer_ipv4
              ++ (bool_byte params.wants_ipv6
                  ∷ (count ++ (concat params.tokens ++ (bool_byte params.wants_daita ∷ [])))))))

written-eq :
    (params : IpRequestV7)
    → length params.tokens ≤ max_session_tokens
    → written params ≡ ok (request_bytes params)
unfolding written request_bytes
written-eq params few = rw (
  encode_leb128-pos ip_request_v7_variant,
  encode_leb128-pos (length params.tokens),
  emitted-small ip_request_v7_variant (omega arith),
  emitted-small (length params.tokens) (omega arith),
)

-- `encodeIpRequestV7` returns bytes exactly for an admissible request, and they are its layout: the
-- bytes C0 03 05, the optional address behind its tag, the IPv6 flag, the token count in one byte,
-- the tokens and the DAITA flag.
pub encode_ip_request_v7_iff :
    (params : IpRequestV7) (bytes : List ℕ)
    → (encode_ip_request_v7 params ≡ ok bytes)
      ↔ (IsAdmissible params × (bytes ≡ request_bytes params))
unfolding encode_ip_request_v7 written
encode_ip_request_v7_iff params bytes = (
  λ e.
      let (count_ok, e1) = >>-eq-ok (check_token_count params.tokens) _ bytes e in
      let (tokens_ok, e2) = >>-eq-ok (check_tokens params.tokens) _ bytes e1 in
      let (address_ok, e3) =
        >>-eq-ok (check_prefer_ipv4 params.prefer_ipv4) (written params) bytes e2 in
      let (low, high) = (check_token_count_iff params.tokens).0 count_ok in
      (
        record {
          some_token = low;
          few_tokens = high;
          token_sizes = (check_tokens_iff params.tokens).0 tokens_ok;
          address = (check_prefer_ipv4_iff params.prefer_ipv4).0 address_ok;
        },
        ok-injective bytes (request_bytes params) (sym e3 ∙ written-eq params high),
      ),
  λ h.
      rw
        (
          (check_token_count_iff params.tokens).1 (h.0.some_token, h.0.few_tokens),
          (check_tokens_iff params.tokens).1 h.0.token_sizes,
          (check_prefer_ipv4_iff params.prefer_ipv4).1 h.0.address,
          h.1,
        )
        (written-eq params h.0.few_tokens),
)

length-concat :
    (tokens : List (List ℕ))
    → All (λ t. length t ≡ session_token_len) tokens
    → length (concat tokens) ≡ session_token_len * length tokens
length-concat [] h = omega arith
length-concat (t ∷ tokens) (ht, h) =
    omega (arith, length-append t (concat tokens), ht, length-concat tokens h)

length-option :
    (p : Option (List ℕ))
    → FitsIpv4 p
    → (1 ≤ length (option_bytes p)) × (length (option_bytes p) ≤ 5)
length-option none h = omega arith
length-option (some address) h = omega arith

-- An encoded request has 354 bytes for each token and 7 to 11 more, so at most 2843.
pub length-encode_ip_request_v7 :
    (params : IpRequestV7) (bytes : List ℕ)
    → encode_ip_request_v7 params ≡ ok bytes
    → (session_token_len * length params.tokens + 7 ≤ length bytes)
      × (length bytes ≤ session_token_len * length params.tokens + 11)
      × (length bytes ≤ 2843)
unfolding request_bytes
length-encode_ip_request_v7 params bytes e =
    let (h, same) = (encode_ip_request_v7_iff params bytes).0 e in
    let (low, high) = length-option params.prefer_ipv4 h.address in
    rw same (
      simp length-append
        (omega (arith, length-concat params.tokens h.token_sizes, low, high, h.few_tokens)))
