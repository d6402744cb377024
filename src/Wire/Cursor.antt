-- ===== src/Wire/Cursor.antt =====
-- The closures with which the decoders of frame.ts, frame-v2.ts and control.ts walk a byte array:
-- `need`, a slice and an offset `o` that moves on.
pub mod At
pub mod Inversion
use warren_sdk_ts.Prelude.{ℕ, ◌+◌, ◌<◌, List, length, get_or, take, drop, ltb, ◌==◌, if◌then◌else◌}
use warren_sdk_ts.Wire.Result
use warren_sdk_ts.Wire.Result.{Result, RangeError, ok, throw, trailing_bytes}
use warren_sdk_ts.Wire.Varint.{Leb128Decoded, decode_leb128}

-- A reader of a byte array at an offset returns its value and the offset behind it.
abbrev pub Read {ℓ} : Type ℓ → Type ℓ
Read A = List ℕ → ℕ → Result (A × ℕ)

abbrev pub continue {ℓ κ} :
    {A : Type ℓ} {B : Type κ} → Result (A × ℕ) → List ℕ → (A → List ℕ → ℕ → Result B) → Result B
continue (ok (a, o)) bytes f = f a bytes o
continue (throw e) bytes f = throw e

infixl 5 ◌>>=◌ ◌>>◌
abbrev pub ◌>>=◌ {ℓ κ} : {A : Type ℓ} {B : Type κ} → Read A → (A → Read B) → Read B
◌>>=◌ m f bytes o = continue (m bytes o) bytes f

abbrev pub ◌>>◌ {κ} : {B : Type κ} → Read (Unit {0}) → Read B → Read B
m >> k = m >>= λ _. k

abbrev pub pure {ℓ} : {A : Type ℓ} → A → Read A
pure a bytes o = ok (a, o)

abbrev pub raise {ℓ} : {A : Type ℓ} → RangeError → Read A
raise e bytes o = throw e

-- `need(n, what)`: `truncated` is the error of the decoder at hand.
pub need : (ℕ → RangeError) → ℕ → Read (Unit {0})
need truncated n bytes o = if ltb (length bytes) (o + n) then throw (truncated n) else ok (tt, o)

-- `bytes[o] ?? 0` after `need(1, …)`.
pub read_u8 : (ℕ → RangeError) → Read ℕ
unfolding need
read_u8 truncated = do need truncated 1; λ bytes o. ok (get_or bytes o 0, o + 1)

-- `bytes.slice(o, o + n)` after `need(n, …)`.
pub read_bytes : (ℕ → RangeError) → ℕ → Read (List ℕ)
unfolding need
read_bytes truncated n = do need truncated n; λ bytes o. ok (take n (drop o bytes), o + n)

abbrev advance : ℕ → Result Leb128Decoded → Result (ℕ × ℕ)
advance o (ok dec) = ok (dec.value, o + dec.length)
advance o (throw e) = throw e

-- `decodeLeb128(bytes.subarray(o))`, and `o` moved on by the length it reports.
pub read_leb128 : Read ℕ
read_leb128 bytes o = advance o (decode_leb128 (drop o bytes))

-- `if (o !== bytes.length) throw …` at the end of a decoder.
pub expect_end : Read (Unit {0})
expect_end bytes o = if o == length bytes then ok (tt, o) else throw trailing_bytes

-- A decoder starts at offset 0 and returns its value alone.
abbrev pub run {ℓ} : {A : Type ℓ} → Read A → List ℕ → Result A
run m bytes = continue (m bytes 0) bytes (λ a _ _. ok a)
