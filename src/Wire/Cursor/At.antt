-- ===== src/Wire/Cursor/At.antt =====
-- The readers where the bytes ahead are known.
use warren_sdk_ts.Prelude.{
  ℕ, zero, suc, ◌+◌, ◌≤◌, ◌<◌, ◌≡◌, refl, ap, sym, ◌∙◌, List, [], ◌∷◌, ◌++◌, arith, length, drop,
  get_or, length-append, take-append, drop-append, drop-drop, le→ltb, lt→ltb,
}
use warren_sdk_ts.Wire.Result.{Result, RangeError, ok, throw, trailing_bytes}
use warren_sdk_ts.Wire.Varint.Groups.{IsLeb, IsShortLeb, leb_value}
use warren_sdk_ts.Wire.Varint.Decode.{decode-IsLeb}
use warren_sdk_ts.Wire.Cursor.{
  Read, continue, ◌>>◌, pure, need, read_u8, read_bytes, read_leb128, expect_end,
}

-- At offset `o` of `bytes` the bytes still ahead are `rest`.
pub record At (bytes : List ℕ) (o : ℕ) (rest : List ℕ) : Type 0 where
  pub ahead : drop o bytes ≡ rest
  pub within : o + length rest ≡ length bytes

pub At-start : (bytes rest : List ℕ) → bytes ≡ rest → At bytes 0 rest
At-start bytes rest e = record { ahead = e; within = omega (arith, ap length e) }

pub At-next :
    {bytes : List ℕ} (o n : ℕ) (xs rest : List ℕ)
    → At bytes o (xs ++ rest)
    → length xs ≡ n
    → At bytes (o + n) rest
At-next {bytes} o n xs rest at len = record {
  ahead = sym (drop-drop o n bytes) ∙ ap (drop n) at.ahead ∙ rw (← len) (drop-append xs rest);
  within = omega (arith, at.within, length-append xs rest);
}

get_or-drop : (n : ℕ) (xs : List ℕ) (d : ℕ) → get_or (drop n xs) 0 d ≡ get_or xs n d
get_or-drop zero xs d = refl
get_or-drop (suc n) [] d = refl
get_or-drop (suc n) (x ∷ xs) d = get_or-drop n xs d

module _ (truncated : ℕ → RangeError) where
  need-At :
      {bytes : List ℕ} (o n : ℕ) (rest : List ℕ)
      → At bytes o rest
      → n ≤ length rest
      → need truncated n bytes o ≡ ok (tt, o)
  unfolding need
  need-At {bytes} o n rest at fits = rw (le→ltb (length bytes) (o + n) (omega (arith, at.within)))

  pub read_bytes-At :
      {bytes : List ℕ} (o n : ℕ) (xs rest : List ℕ)
      → At bytes o (xs ++ rest)
      → length xs ≡ n
      → read_bytes truncated n bytes o ≡ ok (xs, o + n)
  unfolding read_bytes
  read_bytes-At {bytes} o n xs rest at len = rw (
    le→ltb (length bytes) (o + n) (omega (arith, at.within, length-append xs rest)),
    at.ahead,
    ← len,
    take-append xs rest,
  )

  pub read_bytes_short :
      {bytes : List ℕ} (o n : ℕ) (rest : List ℕ)
      → At bytes o rest
      → length rest < n
      → read_bytes truncated n bytes o ≡ throw (truncated n)
  unfolding read_bytes
  read_bytes_short {bytes} o n rest at short =
      rw (lt→ltb (length bytes) (o + n) (omega (arith, at.within)))

  pub read_u8-At :
      {bytes : List ℕ} (o b : ℕ) (rest : List ℕ)
      → At bytes o (b ∷ rest)
      → read_u8 truncated bytes o ≡ ok (b, o + 1)
  unfolding read_u8
  read_u8-At {bytes} o b rest at = rw (
    le→ltb (length bytes) (o + 1) (omega (arith, at.within)),
    sym (get_or-drop o bytes 0),
    at.ahead,
  )

  pub read_u8_short :
      {bytes : List ℕ} (o : ℕ) → At bytes o [] → read_u8 truncated bytes o ≡ throw (truncated 1)
  unfolding read_u8
  read_u8_short {bytes} o at = rw (lt→ltb (length bytes) (o + 1) (omega (arith, at.within)))

pub read_leb128-At :
    {bytes : List ℕ} (o : ℕ) (bs rest : List ℕ)
    → At bytes o (bs ++ rest)
    → IsLeb bs
    → length bs ≤ 10
    → read_leb128 bytes o ≡ ok (leb_value bs, o + length bs)
unfolding read_leb128
read_leb128-At o bs rest at leb short = rw (at.ahead, decode-IsLeb bs rest leb short)

-- What a decoder that ends in `expect_end` returns, by what is left.
abbrev pub outcome {ℓ} : {A : Type ℓ} → List ℕ → A → Result A
outcome [] a = ok a
outcome (b ∷ rest) a = throw trailing_bytes

pub run-outcome :
    {A : Type 0} (bytes rest : List ℕ) (a : A) (o : ℕ)
    → continue (outcome rest (a, o)) bytes (λ x _ _. ok x) ≡ outcome rest a
run-outcome bytes [] a o = refl
run-outcome bytes (b ∷ rest) a o = refl

-- The steps of a block where the bytes ahead are known, one rule for each reader.
module _ {B : Type 0} {bytes : List ℕ} (o : ℕ) where
  pub on_bytes :
      (truncated : ℕ → RangeError) (n : ℕ) (f : List ℕ → List ℕ → ℕ → Result B) (out : Result B)
      (xs rest : List ℕ)
      → At bytes o (xs ++ rest)
      → length xs ≡ n
      → (At bytes (o + n) rest → f xs bytes (o + n) ≡ out)
      → continue (read_bytes truncated n bytes o) bytes f ≡ out
  on_bytes truncated n f out xs rest at len k =
      rw (read_bytes-At truncated o n xs rest at len) (k (At-next o n xs rest at len))

  pub on_u8 :
      (truncated : ℕ → RangeError) (f : ℕ → List ℕ → ℕ → Result B) (out : Result B) (b : ℕ)
      (rest : List ℕ)
      → At bytes o (b ∷ rest)
      → (At bytes (o + 1) rest → f b bytes (o + 1) ≡ out)
      → continue (read_u8 truncated bytes o) bytes f ≡ out
  on_u8 truncated f out b rest at k =
      rw (read_u8-At truncated o b rest at) (k (At-next o 1 (b ∷ []) rest at refl))

  pub on_leb128 :
      (f : ℕ → List ℕ → ℕ → Result B) (out : Result B) (bs rest : List ℕ)
      → At bytes o (bs ++ rest)
      → IsShortLeb bs
      → (At bytes (o + length bs) rest → f (leb_value bs) bytes (o + length bs) ≡ out)
      → continue (read_leb128 bytes o) bytes f ≡ out
  on_leb128 f out bs rest at leb k =
      rw (read_leb128-At o bs rest at leb.leb leb.short) (k (At-next o (length bs) bs rest at refl))

  pub on_end :
      (a : B) (rest : List ℕ)
      → At bytes o rest
      → (expect_end >> pure a) bytes o ≡ outcome rest (a, length bytes)
  unfolding expect_end
  on_end a [] at = ground (arith, at.within)
  on_end a (b ∷ rest) at = ground (arith, at.within)

-- The same for a reader whose result is known.
pub on_read :
    {A B : Type 0} {bytes : List ℕ} (o n : ℕ) (m : Read A) (f : A → List ℕ → ℕ → Result B)
    (out : Result B) (a : A) (xs rest : List ℕ)
    → At bytes o (xs ++ rest)
    → length xs ≡ n
    → m bytes o ≡ ok (a, o + n)
    → (At bytes (o + n) rest → f a bytes (o + n) ≡ out)
    → continue (m bytes o) bytes f ≡ out
on_read o n m f out a xs rest at len e k = rw e (k (At-next o n xs rest at len))
