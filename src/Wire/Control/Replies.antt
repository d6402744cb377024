-- ===== src/Wire/Control/Replies.antt =====
-- `decodeControlMessage` against a written-out encoding of an exit's replies.
use warren_sdk_ts.Prelude.{
  ℕ, ◌^◌, ◌<◌, ◌≡◌, List, [], ◌∷◌, ◌++◌, map, Option, none, some, length, All,
}
use warren_sdk_ts.Wire.Number.{max_exact}
use warren_sdk_ts.Wire.Varint.Encode.{emitted}
use warren_sdk_ts.Wire.Control.{
  DaitaConfig, IpAssign, ControlMessage, ip_assign, ip_exhausted, rejected, exit_draining,
}
use warren_sdk_ts.Wire.Control.Request.{option_bytes}

-- A reply as the exit writes it: texts and doubles are the bytes that stand for them.
abbrev pub RawMessage : Type 0
RawMessage = ControlMessage (List ℕ) (List ℕ)

abbrev pub RawDaita : Type 0
RawDaita = DaitaConfig (List ℕ) (List ℕ)

abbrev pub string_bytes : List ℕ → List ℕ
string_bytes s = emitted (length s) ++ s

abbrev pub strings_bytes : List (List ℕ) → List ℕ
strings_bytes [] = []
strings_bytes (s ∷ ss) = string_bytes s ++ strings_bytes ss

abbrev pub daita_bytes : RawDaita → List ℕ
daita_bytes d =
    emitted (length d.machine_specs)
    ++ (strings_bytes d.machine_specs ++ (d.max_padding_frac ++ d.max_blocking_frac))

abbrev pub option_daita_bytes : Option RawDaita → List ℕ
option_daita_bytes none = 0 ∷ []
option_daita_bytes (some d) = 1 ∷ daita_bytes d

abbrev pub variant_of : RawMessage → ℕ
variant_of (ip_assign a) = 1
variant_of ip_exhausted = 2
variant_of rejected = 3
variant_of (exit_draining deadline reason_code) = 4

abbrev pub reply_fields : RawMessage → List ℕ
reply_fields (ip_assign a) =
    a.ipv4
    ++ (a.prefix_len
        ∷ (a.gateway_ipv4
            ++ (option_bytes a.ipv6
                ++ (a.prefix_len_v6
                    ∷ (option_bytes a.gateway_ipv6 ++ option_daita_bytes a.daita_spec)))))
reply_fields ip_exhausted = []
reply_fields rejected = []
reply_fields (exit_draining deadline reason_code) = emitted deadline ++ (reason_code ∷ [])

-- The bytes of a reply behind the two of the header.
abbrev pub reply_body : RawMessage → List ℕ
reply_body m = variant_of m ∷ reply_fields m

-- The sizes that the layout fixes, and the ranges in which a varint holds a length or a deadline.
abbrev pub HasSize : ℕ → Option (List ℕ) → Type 0
HasSize n none = Unit
HasSize n (some bytes) = length bytes ≡ n

pub record IsSizedDaita (d : RawDaita) : Type 0 where
  pub count : length d.machine_specs < 2 ^ 70
  pub specs : All (λ s. length s < max_exact) d.machine_specs
  pub padding : length d.max_padding_frac ≡ 8
  pub blocking : length d.max_blocking_frac ≡ 8

abbrev pub IsSizedOption : Option RawDaita → Type 0
IsSizedOption none = Unit
IsSizedOption (some d) = IsSizedDaita d

pub record IsSizedAssign (a : IpAssign (List ℕ) (List ℕ)) : Type 0 where
  pub ipv4 : length a.ipv4 ≡ 4
  pub gateway_ipv4 : length a.gateway_ipv4 ≡ 4
  pub ipv6 : HasSize 16 a.ipv6
  pub gateway_ipv6 : HasSize 16 a.gateway_ipv6
  pub daita_spec : IsSizedOption a.daita_spec

abbrev pub IsSized : RawMessage → Type 0
IsSized (ip_assign a) = IsSizedAssign a
IsSized (exit_draining deadline reason_code) = deadline < 2 ^ 70
IsSized _ = Unit

-- What the client makes of a reply, with `TextDecoder` and `getFloat64` as given.
module _ {Text Float : Type 0} (text : List ℕ → Text) (f64 : List ℕ → Float) where
  abbrev pub interpret_daita : RawDaita → DaitaConfig Text Float
  interpret_daita d = record {
    machine_specs = map text d.machine_specs;
    max_padding_frac = f64 d.max_padding_frac;
    max_blocking_frac = f64 d.max_blocking_frac;
  }

  abbrev pub interpret_option : Option RawDaita → Option (DaitaConfig Text Float)
  interpret_option none = none
  interpret_option (some d) = some (interpret_daita d)

  abbrev pub interpret : RawMessage → ControlMessage Text Float
  interpret (ip_assign a) = ip_assign (record {
    ipv4 = a.ipv4;
    prefix_len = a.prefix_len;
    gateway_ipv4 = a.gateway_ipv4;
    ipv6 = a.ipv6;
    prefix_len_v6 = a.prefix_len_v6;
    gateway_ipv6 = a.gateway_ipv6;
    daita_spec = interpret_option a.daita_spec;
  })
  interpret ip_exhausted = ip_exhausted
  interpret rejected = rejected
  interpret (exit_draining deadline reason_code) = exit_draining deadline reason_code
