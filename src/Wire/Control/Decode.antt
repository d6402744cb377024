-- ===== src/Wire/Control/Decode.antt =====
-- `decodeControlMessage` of packages/core/src/edge/control.ts. What `TextDecoder` and `getFloat64`
-- make of bytes are parameters.
use warren_sdk_ts.Prelude.{
  ℕ, zero, suc, List, [], ◌∷◌, Option, none, some, length, get_or, drop, ltb, ◌==◌, if◌then◌else◌,
}
use warren_sdk_ts.Wire.Result.{
  Result, throw, control_too_short, truncated_control, not_a_control_message,
  unsupported_control_version, invalid_option_tag, unexpected_control_variant,
}
use warren_sdk_ts.Wire.Number.{to_number}
use warren_sdk_ts.Wire.Cursor.{
  Read, ◌>>=◌, ◌>>◌, pure, raise, read_u8, read_bytes, read_leb128, expect_end, run,
}
use warren_sdk_ts.Wire.Control.{
  DaitaConfig, ControlMessage, ip_assign, ip_exhausted, rejected, exit_draining, control_first_byte,
  control_version_v3,
}

unfoldable pub read_option_bytes : ℕ → Read (Option (List ℕ))
read_option_bytes n = do
  tag ← read_u8 truncated_control
  if tag == 0
      then pure none
      else if tag == 1
      then (do bytes ← read_bytes truncated_control n; pure (some bytes))
      else raise (invalid_option_tag tag)

module _ {Text Float : Type 0} (text : List ℕ → Text) (f64 : List ℕ → Float) where
  unfoldable pub read_string : Read Text
  read_string = do
    len ← read_leb128
    bytes ← read_bytes truncated_control (to_number len)
    pure (text bytes)

  unfoldable pub read_f64 : Read Float
  read_f64 = do bytes ← read_bytes truncated_control 8; pure (f64 bytes)

  -- `for (let i = 0n; i < count; i++) machineSpecs.push(readString(...))`
  unfoldable pub read_strings : ℕ → Read (List Text)
  read_strings zero = pure []
  read_strings (suc count) = do spec ← read_string; specs ← read_strings count; pure (spec ∷ specs)

  unfoldable pub read_daita_config : Read (DaitaConfig Text Float)
  read_daita_config = do
    count ← read_leb128
    machine_specs ← read_strings count
    max_padding_frac ← read_f64
    max_blocking_frac ← read_f64
    pure (record {
      machine_specs = machine_specs;
      max_padding_frac = max_padding_frac;
      max_blocking_frac = max_blocking_frac;
    })

  unfoldable pub read_option_daita_config : Read (Option (DaitaConfig Text Float))
  read_option_daita_config = do
    tag ← read_u8 truncated_control
    if tag == 0
        then pure none
        else if tag == 1
        then (do config ← read_daita_config; pure (some config))
        else raise (invalid_option_tag tag)

  unfoldable pub read_ip_assign : Read (ControlMessage Text Float)
  read_ip_assign = do
    ipv4 ← read_bytes truncated_control 4
    prefix_len ← read_u8 truncated_control
    gateway_ipv4 ← read_bytes truncated_control 4
    ipv6 ← read_option_bytes 16
    prefix_len_v6 ← read_u8 truncated_control
    gateway_ipv6 ← read_option_bytes 16
    daita_spec ← read_option_daita_config
    pure (
        ip_assign (record {
          ipv4 = ipv4;
          prefix_len = prefix_len;
          gateway_ipv4 = gateway_ipv4;
          ipv6 = ipv6;
          prefix_len_v6 = prefix_len_v6;
          gateway_ipv6 = gateway_ipv6;
          daita_spec = daita_spec;
        }))

  unfoldable pub read_exit_draining : Read (ControlMessage Text Float)
  read_exit_draining = do
    deadline ← read_leb128
    reason_code ← read_u8 truncated_control
    pure (exit_draining deadline reason_code)

  -- `switch (variant)`
  unfoldable pub read_variant : ℕ → Read (ControlMessage Text Float)
  read_variant variant =
      if variant == 1
      then read_ip_assign
      else if variant == 2
      then pure ip_exhausted
      else if variant == 3
      then pure rejected
      else if variant == 4
      then read_exit_draining
      else raise (unexpected_control_variant variant)

  unfoldable pub read_message : Read (ControlMessage Text Float)
  read_message = do variant ← read_leb128; msg ← read_variant variant; expect_end; pure msg

  unfoldable pub decode_control_message : List ℕ → Result (ControlMessage Text Float)
  decode_control_message plaintext =
      let body = run read_message (drop 2 plaintext) in
      if ltb (length plaintext) 2
      then throw (control_too_short (length plaintext))
      else if get_or plaintext 0 0 == control_first_byte
      then (if get_or plaintext 1 0 == control_version_v3
          then body
          else throw (unsupported_control_version (get_or plaintext 1 0)))
      else throw (not_a_control_message (get_or plaintext 0 0))
