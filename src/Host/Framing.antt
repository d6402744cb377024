-- ===== src/Host/Framing.antt =====
-- packages/extension/src/host/framing.ts: native messaging frames. `JSON.stringify` with the UTF-8
-- encoder, and `JSON.parse` of decoded text, are parameters on bytes; a parse that throws is `none`.
pub mod Chunks
pub mod RoundTrip
use warren_sdk_ts.Prelude.{
  ℕ, zero, suc, ◌+◌, ◌*◌, ◌/◌, ◌%◌, ◌^◌, List, [], ◌∷◌, ◌++◌, Option, none, some, leb, ltb,
  if◌then◌else◌, length, take, drop,
}

abbrev pub max_native_frame_bytes : ℕ
max_native_frame_bytes = 1024 * 1024

abbrev pub u32_le : ℕ → List ℕ
u32_le n = n % 256 ∷ n / 256 % 256 ∷ n / 2 ^ 16 % 256 ∷ n / 2 ^ 24 % 256 ∷ []

-- `readUInt32LE(0)`, of a buffer of four bytes or more
unfoldable pub read_u32_le : List ℕ → ℕ
read_u32_le (a ∷ b ∷ c ∷ d ∷ bytes) = a + 256 * b + 2 ^ 16 * c + 2 ^ 24 * d
read_u32_le bytes = 0

-- `none` is the `RangeError`.
unfoldable pub encode_native_frame : List ℕ → Option (List ℕ)
encode_native_frame json =
    if leb max_native_frame_bytes (length json) then none else some (u32_le (length json) ++ json)

-- What the front of the buffer is: not yet a frame, a frame over the cap, or a frame and what follows.
pub data Next : Type 0 where
  waiting : Next
  too_long : Next
  frame : (json rest : List ℕ) → Next

unfoldable pub next : List ℕ → Next
next buffer =
    if ltb (length buffer) 4
    then waiting
    else if ltb max_native_frame_bytes (read_u32_le buffer)
    then too_long
    else if ltb (length buffer) (4 + read_u32_le buffer)
    then waiting
    else frame (take (read_u32_le buffer) (drop 4 buffer)) (drop (4 + read_u32_le buffer) buffer)

-- What `push` leaves in the buffer, with the messages that it returns or the error that it throws.
pub data Pushed (M : Type 0) : Type 0 where
  returned : (buffer : List ℕ) (messages : List M) → Pushed M
  over_cap : (buffer : List ℕ) → Pushed M
  bad_json : (buffer : List ℕ) → Pushed M

abbrev pub prepend : {M : Type 0} → List M → Pushed M → Pushed M
prepend ms (returned buffer messages) = returned buffer (ms ++ messages)
prepend ms (over_cap buffer) = over_cap buffer
prepend ms (bad_json buffer) = bad_json buffer

module _ {M : Type 0} (parse : List ℕ → Option M) where
  abbrev pub on_json : List ℕ → Option M → Pushed M → Pushed M
  on_json buffer none rest = bad_json buffer
  on_json buffer (some m) rest = prepend (m ∷ []) rest

  -- The loop, by fuel; `later` is what the rest of the loop makes of the bytes behind the frame.
  abbrev pub on_next : List ℕ → (List ℕ → Pushed M) → Next → Pushed M
  on_next buffer later waiting = returned buffer []
  on_next buffer later too_long = over_cap buffer
  on_next buffer later (frame json rest) = on_json buffer (parse json) (later rest)

  unfoldable pub drain : ℕ → List ℕ → Pushed M
  drain zero buffer = returned buffer []
  drain (suc fuel) buffer = on_next buffer (drain fuel) (next buffer)

  -- Each turn of the loop takes four bytes or more, so the buffer's length is fuel enough.
  unfoldable pub push : List ℕ → List ℕ → Pushed M
  push buffer chunk = drain (length (buffer ++ chunk)) (buffer ++ chunk)
