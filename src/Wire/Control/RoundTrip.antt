-- ===== src/Wire/Control/RoundTrip.antt =====
-- `decodeControlMessage` reads back every reply of an exit, and refuses a client's request.
use warren_sdk_ts.Prelude.{
  ℕ, ◌+◌, ◌^◌, ◌<◌, ◌≡◌, refl, ap, sym, ◌∙◌, List, [], ◌∷◌, ◌++◌, append_assoc, map, Option, none,
  some, arith, length, length-append, All, drop, ltb, le→ltb, false,
}
use warren_sdk_ts.Wire.Result.{Result, ok, throw, truncated_control, unexpected_control_variant}
use warren_sdk_ts.Wire.Number.{max_exact, to_number_exact}
use warren_sdk_ts.Wire.Varint.Encode.{emitted, emitted-small, leb_value-emitted}
use warren_sdk_ts.Wire.Varint.RoundTrip.{emitted-IsShortLeb}
use warren_sdk_ts.Wire.Cursor.{read_leb128, continue}
use warren_sdk_ts.Wire.Cursor.At.{
  At, At-start, At-next, outcome, run-outcome, read_bytes-At, read_u8-At, on_bytes, on_u8,
  on_leb128, on_end, on_read,
}
use warren_sdk_ts.Wire.Control.{
  IpRequestV7, IpAssign, ip_assign, ip_exhausted, rejected, exit_draining,
}
use warren_sdk_ts.Wire.Control.Request.{option_bytes, encode_ip_request_v7}
use warren_sdk_ts.Wire.Control.Admission.{request_bytes, encode_ip_request_v7_iff}
use warren_sdk_ts.Wire.Control.Decode.{
  read_option_bytes, read_string, read_f64, read_strings, read_daita_config,
  read_option_daita_config, read_ip_assign, read_exit_draining, read_variant, read_message,
  decode_control_message,
}
use warren_sdk_ts.Wire.Control.Replies.{
  RawMessage, RawDaita, string_bytes, strings_bytes, daita_bytes, option_daita_bytes, variant_of,
  reply_fields, reply_body, HasSize, IsSizedDaita, IsSizedOption, IsSizedAssign, IsSized,
  interpret_daita, interpret_option, interpret,
}

-- A number that was written as a varint.
on_emitted :
    {B : Type 0} {bytes : List ℕ} (o v : ℕ) (f : ℕ → List ℕ → ℕ → Result B) (out : Result B)
    (rest : List ℕ)
    → At bytes o (emitted v ++ rest)
    → v < 2 ^ 70
    → (At bytes (o + length (emitted v)) rest → f v bytes (o + length (emitted v)) ≡ out)
    → continue (read_leb128 bytes o) bytes f ≡ out
on_emitted o v f out rest at h k =
    on_leb128 o f out (emitted v) rest at (emitted-IsShortLeb v h)
      λ at1. rw leb_value-emitted (k at1)

read_option_bytes-At :
    {bytes : List ℕ} (o n : ℕ) (p : Option (List ℕ)) (rest : List ℕ)
    → At bytes o (option_bytes p ++ rest)
    → HasSize n p
    → read_option_bytes n bytes o ≡ ok (p, o + length (option_bytes p))
unfolding read_option_bytes
read_option_bytes-At o n none rest at h = on_u8 o truncated_control _ _ 0 rest at λ at1. refl
read_option_bytes-At o n (some xs) rest at h =
    on_u8 o truncated_control _ _ 1 (xs ++ rest) at λ at1.
      on_bytes (o + 1) truncated_control n _ _ xs rest at1 h
        λ at2. ap (λ t. ok (some xs, t)) (omega (arith, h))

variant_small : (m : RawMessage) → variant_of m < 2 ^ 70
variant_small (ip_assign a) = omega arith
variant_small ip_exhausted = omega arith
variant_small rejected = omega arith
variant_small (exit_draining deadline reason_code) = omega arith

variant_byte :
    (m : RawMessage) (rest : List ℕ) → emitted (variant_of m) ++ rest ≡ variant_of m ∷ rest
variant_byte (ip_assign a) rest = rw (emitted-small 1 (omega arith))
variant_byte ip_exhausted rest = rw (emitted-small 2 (omega arith))
variant_byte rejected rest = rw (emitted-small 3 (omega arith))
variant_byte (exit_draining deadline reason_code) rest = rw (emitted-small 4 (omega arith))

module _ {Text Float : Type 0} (text : List ℕ → Text) (f64 : List ℕ → Float) where
  read_string-At :
      {bytes : List ℕ} (o : ℕ) (s rest : List ℕ)
      → At bytes o (string_bytes s ++ rest)
      → length s < max_exact
      → read_string text f64 bytes o ≡ ok (text s, o + length (string_bytes s))
  unfolding read_string
  read_string-At o s rest at h =
      on_emitted o (length s) _ _ (s ++ rest) (rw append_assoc at at) (omega (arith, h)) λ at1.
        on_bytes _ truncated_control _ _ _ s rest at1 (sym (to_number_exact (length s) h)) λ at2.
          ap (λ t. ok (text s, t))
            (omega (arith, to_number_exact (length s) h, length-append (emitted (length s)) s))

  read_strings-At :
      {bytes : List ℕ} (o : ℕ) (ss : List (List ℕ)) (rest : List ℕ)
      → At bytes o (strings_bytes ss ++ rest)
      → All (λ s. length s < max_exact) ss
      → read_strings text f64 (length ss) bytes o ≡ ok (map text ss, o + length (strings_bytes ss))
  unfolding read_strings
  read_strings-At o [] rest at h = ap (λ t. ok ([], t)) (omega arith)
  read_strings-At {bytes} o (s ∷ ss) rest at (hs, h) =
      on_read o _ (read_string text f64) _ _ (text s) (string_bytes s) (strings_bytes ss ++ rest)
        at' refl (read_string-At o s (strings_bytes ss ++ rest) at' hs)
        λ at1.
          on_read _ _ (read_strings text f64 (length ss)) _ _ (map text ss) (strings_bytes ss) rest
            at1 refl (read_strings-At (o + length (string_bytes s)) ss rest at1 h)
            λ at2.
              ap (λ t. ok (map text (s ∷ ss), t))
                (omega (arith, length-append (string_bytes s) (strings_bytes ss)))
    where
      at' : At bytes o (string_bytes s ++ (strings_bytes ss ++ rest))
      at' = rw append_assoc at at

  read_f64-At :
      {bytes : List ℕ} (o : ℕ) (x rest : List ℕ)
      → At bytes o (x ++ rest)
      → length x ≡ 8
      → read_f64 text f64 bytes o ≡ ok (f64 x, o + 8)
  unfolding read_f64
  read_f64-At o x rest at h = on_bytes o truncated_control 8 _ _ x rest at h λ at1. refl

  read_daita_config-At :
      {bytes : List ℕ} (o : ℕ) (d : RawDaita) (rest : List ℕ)
      → At bytes o (daita_bytes d ++ rest)
      → IsSizedDaita d
      → read_daita_config text f64 bytes o
        ≡ ok (interpret_daita text f64 d, o + length (daita_bytes d))
  unfolding read_daita_config
  read_daita_config-At {bytes} o d rest at h =
      on_emitted o (length d.machine_specs) _ _ _ at' h.count λ at1.
        on_read _ _ (read_strings text f64 (length d.machine_specs)) _ _ (map text d.machine_specs)
          (strings_bytes d.machine_specs) _ at1 refl
          (read_strings-At _ d.machine_specs _ at1 h.specs)
          λ at2.
            on_read _ 8 (read_f64 text f64) _ _ (f64 d.max_padding_frac) d.max_padding_frac _ at2
              h.padding (read_f64-At _ d.max_padding_frac _ at2 h.padding)
              λ at3.
                on_read _ 8 (read_f64 text f64) _ _ (f64 d.max_blocking_frac) d.max_blocking_frac
                  rest at3 h.blocking (read_f64-At _ d.max_blocking_frac rest at3 h.blocking)
                  λ at4. ap (λ t. ok (interpret_daita text f64 d, t)) behind
    where
      size :
          length (daita_bytes d)
          ≡ length (emitted (length d.machine_specs))
            + (length (strings_bytes d.machine_specs)
                + (length d.max_padding_frac + length d.max_blocking_frac))
      size = simp length-append

      behind :
          o
            + length (emitted (length d.machine_specs))
            + length (strings_bytes d.machine_specs)
            + 8
            + 8
          ≡ o + length (daita_bytes d)
      behind = omega (arith, size, h.padding, h.blocking)

      at' : At bytes o (
          emitted (length d.machine_specs)
          ++ (strings_bytes d.machine_specs
              ++ (d.max_padding_frac ++ (d.max_blocking_frac ++ rest))))
      at' = simp append_assoc at at

  read_option_daita_config-At :
      {bytes : List ℕ} (o : ℕ) (p : Option RawDaita) (rest : List ℕ)
      → At bytes o (option_daita_bytes p ++ rest)
      → IsSizedOption p
      → read_option_daita_config text f64 bytes o
        ≡ ok (interpret_option text f64 p, o + length (option_daita_bytes p))
  unfolding read_option_daita_config
  read_option_daita_config-At o none rest at h = on_u8 o truncated_control _ _ 0 rest at λ at1. refl
  read_option_daita_config-At o (some d) rest at h =
      on_u8 o truncated_control _ _ 1 (daita_bytes d ++ rest) at λ at1.
        on_read (o + 1) _ (read_daita_config text f64) _ _ (interpret_daita text f64 d)
          (daita_bytes d) rest at1 refl (read_daita_config-At (o + 1) d rest at1 h)
          λ at2. ap (λ t. ok (some (interpret_daita text f64 d), t)) (omega arith)

  read_ip_assign-At :
      {bytes : List ℕ} (o : ℕ) (a : IpAssign (List ℕ) (List ℕ)) (rest : List ℕ)
      → At bytes o (
          a.ipv4
          ++ (a.prefix_len
              ∷ (a.gateway_ipv4
                  ++ (option_bytes a.ipv6
                      ++ (a.prefix_len_v6
                          ∷ (option_bytes a.gateway_ipv6
                              ++ (option_daita_bytes a.daita_spec ++ rest)))))))
      → IsSizedAssign a
      → (o' : ℕ) × (read_ip_assign text f64 bytes o ≡ ok (interpret text f64 (ip_assign a), o'))
        × At bytes o' rest
  unfolding read_ip_assign
  read_ip_assign-At {bytes} o a rest at h =
      let at1 = At-next o 4 a.ipv4 _ at h.ipv4 in
      let at2 = At-next (o + 4) 1 (a.prefix_len ∷ []) _ at1 refl in
      let at3 = At-next (o + 4 + 1) 4 a.gateway_ipv4 _ at2 h.gateway_ipv4 in
      let o4 : ℕ = o + 4 + 1 + 4 + length (option_bytes a.ipv6) in
      let at4 : At bytes o4 _ = At-next (o + 4 + 1 + 4) _ (option_bytes a.ipv6) _ at3 refl in
      let at5 = At-next o4 1 (a.prefix_len_v6 ∷ []) _ at4 refl in
      let o6 : ℕ = o4 + 1 + length (option_bytes a.gateway_ipv6) in
      let at6 : At bytes o6 _ = At-next (o4 + 1) _ (option_bytes a.gateway_ipv6) _ at5 refl in
      let at7 = At-next o6 _ (option_daita_bytes a.daita_spec) rest at6 refl in
      (
        o6 + length (option_daita_bytes a.daita_spec),
        rw (
          read_bytes-At truncated_control o 4 a.ipv4 _ at h.ipv4,
          read_u8-At truncated_control (o + 4) a.prefix_len _ at1,
          read_bytes-At truncated_control (o + 4 + 1) 4 a.gateway_ipv4 _ at2 h.gateway_ipv4,
          read_option_bytes-At (o + 4 + 1 + 4) 16 a.ipv6 _ at3 h.ipv6,
          read_u8-At truncated_control o4 a.prefix_len_v6 _ at4,
          read_option_bytes-At (o4 + 1) 16 a.gateway_ipv6 _ at5 h.gateway_ipv6,
          read_option_daita_config-At o6 a.daita_spec rest at6 h.daita_spec,
        ),
        at7,
      )

  -- The reader of the variant's fields, behind the variant itself.
  read_variant-At :
      {bytes : List ℕ} (o : ℕ) (m : RawMessage) (rest : List ℕ)
      → At bytes o (reply_fields m ++ rest)
      → IsSized m
      → (o' : ℕ) × (read_variant text f64 (variant_of m) bytes o ≡ ok (interpret text f64 m, o'))
        × At bytes o' rest
  unfolding read_variant
  read_variant-At o (ip_assign a) rest at h = read_ip_assign-At o a rest (simp append_assoc at at) h
  read_variant-At {bytes} o ip_exhausted rest at h = (o, refl, at)
  read_variant-At {bytes} o rejected rest at h = (o, refl, at)
  read_variant-At {bytes} o (exit_draining deadline reason_code) rest at h =
      let at0 : At bytes o (emitted deadline ++ (reason_code ∷ rest)) = rw append_assoc at at in
      let at1 = At-next o _ (emitted deadline) _ at0 refl in
      (
        o + length (emitted deadline) + 1,
        unfold read_exit_draining in
            on_emitted o deadline _ _ (reason_code ∷ rest) at0 h
              λ at2. on_u8 _ truncated_control _ _ reason_code rest at2 λ at3. refl,
        At-next (o + length (emitted deadline)) 1 (reason_code ∷ []) rest at1 refl,
      )

  read_message-At :
      (bytes rest : List ℕ) (m : RawMessage)
      → bytes ≡ variant_of m ∷ (reply_fields m ++ rest)
      → IsSized m
      → read_message text f64 bytes 0 ≡ outcome rest (interpret text f64 m, length bytes)
  unfolding read_message
  read_message-At bytes rest m e h =
      let start =
        At-start bytes (emitted (variant_of m) ++ (reply_fields m ++ rest))
          (e ∙ sym (variant_byte m _)) in
      on_emitted 0 (variant_of m) _ _ _ start (variant_small m) λ at1.
        let (o', read, at2) = read_variant-At _ m rest at1 h in
        rw read (on_end o' (interpret text f64 m) rest at2)

  -- Every well-sized reply that an exit writes behind C0 03 decodes to its message, and with one or
  -- more bytes behind it is refused for them.
  pub decode_control_message-reply :
      (m : RawMessage) (rest : List ℕ)
      → IsSized m
      → decode_control_message text f64 (0xc0 ∷ 3 ∷ (reply_body m ++ rest))
        ≡ outcome rest (interpret text f64 m)
  unfolding decode_control_message
  decode_control_message-reply m rest h =
      let body : List ℕ = reply_body m ++ rest in
      let long : ltb (length (0xc0 ∷ 3 ∷ body)) 2 ≡ false = le→ltb _ 2 (omega arith) in
      rw (long, read_message-At body rest m refl h)
        (run-outcome body rest (interpret text f64 m) (length body))

  other_variant :
      (bytes rest : List ℕ)
      → bytes ≡ 5 ∷ rest
      → read_message text f64 bytes 0 ≡ throw (unexpected_control_variant 5)
  unfolding read_message read_variant
  other_variant bytes rest e =
      let byte : emitted 5 ++ rest ≡ 5 ∷ rest = rw (emitted-small 5 (omega arith)) in
      on_emitted 0 5 _ _ rest (At-start bytes (emitted 5 ++ rest) (e ∙ sym byte)) (omega arith)
        λ at1. refl

  -- What a client asks is never taken for an exit's reply: every request that `encodeIpRequestV7`
  -- writes is refused by `decodeControlMessage` for its variant.
  pub request_refused :
      (params : IpRequestV7) (bytes : List ℕ)
      → encode_ip_request_v7 params ≡ ok bytes
      → decode_control_message text f64 bytes ≡ throw (unexpected_control_variant 5)
  unfolding decode_control_message request_bytes
  request_refused params bytes e =
      let (h, same) = (encode_ip_request_v7_iff params bytes).0 e in
      let rest : List ℕ = drop 3 (request_bytes params) in
      let long : ltb (length (0xc0 ∷ 3 ∷ 5 ∷ rest)) 2 ≡ false = le→ltb _ 2 (omega arith) in
      rw (same, long, other_variant (5 ∷ rest) rest refl)
