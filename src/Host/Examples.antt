-- ===== src/Host/Examples.antt =====
-- The theorems on native frames at concrete inputs.
use warren_sdk_ts.Prelude.{ℕ, ◌≡◌, refl, arith, List, [], ◌∷◌, ◌++◌, Option, some}
use warren_sdk_ts.Host.Framing.{
  encode_native_frame, next, read_u32_le, returned, prepend, drain, push,
}
use warren_sdk_ts.Host.Framing.Chunks.{drain_fuel, push-append}
use warren_sdk_ts.Host.Framing.RoundTrip.{push-encode_native_frame}

-- A parser that takes any bytes for their own message
abbrev parse_any : List ℕ → Option (List ℕ)
parse_any json = some json

-- The message `{}`
abbrev braces : List ℕ
braces = 123 ∷ 125 ∷ []

test_encode : encode_native_frame braces ≡ some (2 ∷ 0 ∷ 0 ∷ 0 ∷ 123 ∷ 125 ∷ [])
unfolding encode_native_frame
test_encode = refl

push-encode_native_frame_example :
    push parse_any [] (2 ∷ 0 ∷ 0 ∷ 0 ∷ 123 ∷ 125 ∷ []) ≡ returned [] (braces ∷ [])
push-encode_native_frame_example =
    push-encode_native_frame parse_any braces (2 ∷ 0 ∷ 0 ∷ 0 ∷ 123 ∷ 125 ∷ []) braces test_encode
      refl

-- One frame and the start of a second
test_push :
    push parse_any [] (2 ∷ 0 ∷ 0 ∷ 0 ∷ 123 ∷ 125 ∷ 2 ∷ 0 ∷ []) ≡ returned (2 ∷ 0 ∷ []) (braces ∷ [])
unfolding push drain next read_u32_le
test_push = refl

push-append_example :
    push parse_any [] ((2 ∷ 0 ∷ 0 ∷ 0 ∷ 123 ∷ 125 ∷ 2 ∷ 0 ∷ []) ++ (0 ∷ 0 ∷ 123 ∷ 125 ∷ []))
    ≡ prepend (braces ∷ []) (push parse_any (2 ∷ 0 ∷ []) (0 ∷ 0 ∷ 123 ∷ 125 ∷ []))
push-append_example =
    push-append parse_any [] (2 ∷ 0 ∷ 0 ∷ 0 ∷ 123 ∷ 125 ∷ 2 ∷ 0 ∷ []) (0 ∷ 0 ∷ 123 ∷ 125 ∷ [])
      (2 ∷ 0 ∷ []) (braces ∷ []) test_push

drain_fuel_example :
    drain parse_any 8 (2 ∷ 0 ∷ 0 ∷ 0 ∷ 123 ∷ 125 ∷ 2 ∷ 0 ∷ [])
    ≡ drain parse_any 99 (2 ∷ 0 ∷ 0 ∷ 0 ∷ 123 ∷ 125 ∷ 2 ∷ 0 ∷ [])
drain_fuel_example =
    drain_fuel parse_any 8 99 (2 ∷ 0 ∷ 0 ∷ 0 ∷ 123 ∷ 125 ∷ 2 ∷ 0 ∷ []) (omega arith) (omega arith)
