-- ===== src/Wire/Cursor/Inversion.antt =====
-- What a reader that returned has seen: each consumes a piece of what was ahead, and no more.
use warren_sdk_ts.Prelude.{
  ℕ, ◌+◌, ◌≡◌, refl, ap, sym, ◌∙◌, List, [], ◌∷◌, ◌++◌, arith, length, take, drop, All, length-take,
  take-append-drop,
}
use warren_sdk_ts.Wire.Result.{Result, RangeError, ok, throw}
use warren_sdk_ts.Wire.Varint.{decode_leb128}
use warren_sdk_ts.Wire.Varint.Groups.{IsByte, IsShortLeb, leb_value}
use warren_sdk_ts.Wire.Varint.Decode.{Answer, decode_leb128_answer}
use warren_sdk_ts.Wire.Varint.Decode.{decoded, ends_early, goes_on}
use warren_sdk_ts.Wire.Cursor.{read_u8, read_bytes, read_leb128, expect_end, continue}
use warren_sdk_ts.Wire.Cursor.At.{
  At, At-start, At-next, read_bytes-At, read_bytes_short, read_u8-At, read_u8_short, read_leb128-At,
}
use native.Mathlib.Decide.{dec_le}

-- The value of a block that ends in `pure`.
pub returned-eq :
    {A : Type 0} (a : A) (n : ℕ) (r : A × ℕ) → ◌≡◌ {A = Result (A × ℕ)} (ok (a, n)) (ok r) → a ≡ r.0
returned-eq a n r e = cc

-- A block that returned has run its first action, and the rest from where that stopped.
pub record Ran {A B : Type 0} (r : Result (A × ℕ)) (bytes : List ℕ) (f : A → List ℕ → ℕ → Result B)
    (b : B) : Type 0 where
  pub value : A
  pub offset : ℕ
  pub first : r ≡ ok (value, offset)
  pub second : f value bytes offset ≡ ok b

pub continue-eq-ok :
    {A B : Type 0} (r : Result (A × ℕ)) (bytes : List ℕ) (f : A → List ℕ → ℕ → Result B) (b : B)
    → continue r bytes f ≡ ok b
    → Ran r bytes f b
continue-eq-ok (ok (a, o)) bytes f b e = record { value = a; offset = o; first = refl; second = e }
continue-eq-ok (throw x) bytes f b e = cc

-- At offset `o` the bytes `rest` are ahead, and they are bytes.
pub record Ahead (bytes : List ℕ) (o : ℕ) (rest : List ℕ) : Type 0 where
  pub at : At bytes o rest
  pub are_bytes : All IsByte rest

pub Ahead-start : (bytes : List ℕ) → All IsByte bytes → Ahead bytes 0 bytes
Ahead-start bytes h = record { at = At-start bytes bytes refl; are_bytes = h }

All-drop : (xs ys : List ℕ) → All IsByte (xs ++ ys) → All IsByte ys
All-drop [] ys h = h
All-drop (x ∷ xs) ys (hx, h) = All-drop xs ys h

Ahead-next :
    {bytes : List ℕ} (o n o' : ℕ) (xs rest : List ℕ)
    → Ahead bytes o (xs ++ rest)
    → length xs ≡ n
    → o + n ≡ o'
    → Ahead bytes o' rest
Ahead-next {bytes} o n o' xs rest a len e = record {
  at = rw e at (At-next o n xs rest a.at len);
  are_bytes = All-drop xs rest a.are_bytes;
}

-- `rest` was ahead; `piece` has been taken off it, and the offset is now `o`.
pub record Took (bytes : List ℕ) (rest piece : List ℕ) (o : ℕ) : Type 0 where
  pub after : List ℕ
  pub split : rest ≡ piece ++ after
  pub at : Ahead bytes o after

ok-pair :
    {A : Type 0} (a b : A) (n m : ℕ)
    → ◌≡◌ {A = Result (A × ℕ)} (ok (a, n)) (ok (b, m))
    → (a ≡ b) × (n ≡ m)
ok-pair a b n m e = (cc, cc)

module _ (truncated : ℕ → RangeError) where
  read_bytes-Took :
      {bytes : List ℕ} (n o o' : ℕ) (xs front back rest : List ℕ)
      → Ahead bytes o rest
      → rest ≡ front ++ back
      → length front ≡ n
      → read_bytes truncated n bytes o ≡ ok (xs, o')
      → (length xs ≡ n) × Took bytes rest xs o'
  read_bytes-Took {bytes} n o o' xs front back rest a split len e =
      let a' : Ahead bytes o (front ++ back) = rw split at a in
      let (same, offset) =
        ok-pair front xs (o + n) o' (sym (read_bytes-At truncated o n front back a'.at len) ∙ e) in
      (
        ap length (sym same) ∙ len,
        record {
          after = back;
          split = split ∙ ap (λ t. t ++ back) same;
          at = Ahead-next o n o' front back a' len offset;
        },
      )

  read_bytes_seen :
      {bytes : List ℕ} (n o o' : ℕ) (xs rest : List ℕ)
      → Ahead bytes o rest
      → read_bytes truncated n bytes o ≡ ok (xs, o')
      → (length xs ≡ n) × Took bytes rest xs o'
  read_bytes_seen {bytes} n o o' xs rest a e = elim (dec_le n (length rest)) [
    | yes fits ↦
        read_bytes-Took n o o' xs (take n rest) (drop n rest) rest a (sym (take-append-drop n rest))
          (omega (arith, length-take n rest)) e
    | no short ↦ cc (read_bytes_short truncated o n rest a.at (omega arith))
  ]

  read_u8_seen :
      {bytes : List ℕ} (o o' b : ℕ) (rest : List ℕ)
      → Ahead bytes o rest
      → read_u8 truncated bytes o ≡ ok (b, o')
      → Took bytes rest (b ∷ []) o'
  read_u8_seen {bytes} o o' b [] a e = cc (read_u8_short truncated o a.at)
  read_u8_seen {bytes} o o' b (c ∷ rest) a e =
      let (same, offset) = ok-pair c b (o + 1) o' (sym (read_u8-At truncated o c rest a.at) ∙ e) in
      record {
        after = rest;
        split = ap (λ t. t ∷ rest) same;
        at = Ahead-next o 1 o' (c ∷ []) rest a refl offset;
      }

-- A LEB128 string of at most ten bytes was ahead, and `v` is its value.
pub record TookLeb (bytes : List ℕ) (rest : List ℕ) (v o : ℕ) : Type 0 where
  pub piece : List ℕ
  pub leb : IsShortLeb piece
  pub value : leb_value piece ≡ v
  pub took : Took bytes rest piece o

read_leb128_seen :
    {bytes : List ℕ} (o o' v : ℕ) (rest : List ℕ)
    → Ahead bytes o rest
    → read_leb128 bytes o ≡ ok (v, o')
    → TookLeb bytes rest v o'
read_leb128_seen {bytes} o o' v rest a e = go (decode_leb128_answer rest a.are_bytes)
  where
    stuck : (x : RangeError) → decode_leb128 rest ≡ throw x → read_leb128 bytes o ≡ throw x
    stuck x h = unfold read_leb128 in rw (a.at.ahead, h)

    go : Answer rest → TookLeb bytes rest v o'
    go (decoded bs after split leb short d) =
        let a' : Ahead bytes o (bs ++ after) = rw split at a in
        let (same, offset) =
          ok-pair (leb_value bs) v (o + length bs) o'
            (sym (read_leb128-At o bs after a'.at leb short) ∙ e) in
        record {
          piece = bs;
          leb = record { leb = leb; short = short };
          value = same;
          took = record {
            after = after;
            split = split;
            at = Ahead-next o (length bs) o' bs after a' refl offset;
          };
        }
    go (ends_early h short d) = cc (stuck _ d)
    go (goes_on bs after split h full d) = cc (stuck _ d)

expect_end_seen :
    {bytes : List ℕ} (o o' : ℕ) (rest : List ℕ)
    → Ahead bytes o rest
    → expect_end bytes o ≡ ok (tt, o')
    → rest ≡ []
unfolding expect_end
expect_end_seen o o' [] a e = refl
expect_end_seen o o' (b ∷ rest) a e = ground (arith, a.at.within)

-- Inversion of a block that returned, one step at a time: what the step took goes to the rest of the
-- proof as variables.
module _ {B C : Type 0} {bytes : List ℕ} (o : ℕ) (rest : List ℕ) (b : B)
    (a : Ahead bytes o rest) where
  pub then_bytes :
      (truncated : ℕ → RangeError) (n : ℕ) (f : List ℕ → List ℕ → ℕ → Result B)
      → continue (read_bytes truncated n bytes o) bytes f ≡ ok b
      → ((xs after : List ℕ) (o' : ℕ)
          → length xs ≡ n
          → rest ≡ xs ++ after
          → Ahead bytes o' after
          → f xs bytes o' ≡ ok b
          → C)
      → C
  then_bytes truncated n f e k =
      let r = continue-eq-ok (read_bytes truncated n bytes o) bytes f b e in
      let (len, t) = read_bytes_seen truncated n o r.offset r.value rest a r.first in
      k r.value t.after r.offset len t.split t.at r.second

  pub then_u8 :
      (truncated : ℕ → RangeError) (f : ℕ → List ℕ → ℕ → Result B)
      → continue (read_u8 truncated bytes o) bytes f ≡ ok b
      → ((v : ℕ) (after : List ℕ) (o' : ℕ)
          → rest ≡ v ∷ after
          → Ahead bytes o' after
          → f v bytes o' ≡ ok b
          → C)
      → C
  then_u8 truncated f e k =
      let r = continue-eq-ok (read_u8 truncated bytes o) bytes f b e in
      let t = read_u8_seen truncated o r.offset r.value rest a r.first in
      k r.value t.after r.offset t.split t.at r.second

  pub then_leb128 :
      (f : ℕ → List ℕ → ℕ → Result B)
      → continue (read_leb128 bytes o) bytes f ≡ ok b
      → ((piece after : List ℕ) (v o' : ℕ)
          → IsShortLeb piece
          → leb_value piece ≡ v
          → rest ≡ piece ++ after
          → Ahead bytes o' after
          → f v bytes o' ≡ ok b
          → C)
      → C
  then_leb128 f e k =
      let r = continue-eq-ok (read_leb128 bytes o) bytes f b e in
      let t = read_leb128_seen o r.offset r.value rest a r.first in
      k t.piece t.took.after r.value r.offset t.leb t.value t.took.split t.took.at r.second

  pub then_end :
      (f : Unit {0} → List ℕ → ℕ → Result B)
      → continue (expect_end bytes o) bytes f ≡ ok b
      → ((o' : ℕ) → rest ≡ [] → f tt bytes o' ≡ ok b → C)
      → C
  then_end f e k =
      let r = continue-eq-ok (expect_end bytes o) bytes f b e in
      k r.offset (expect_end_seen o r.offset rest a r.first) r.second
