-- ===== src/Wire/Varint/Groups.antt =====
-- What a LEB128 byte string is, and the number it stands for, with no loop and no bit operation.
use warren_sdk_ts.Prelude.{ℕ, ◌+◌, ◌*◌, ◌%◌, ◌≤◌, ◌<◌, ◌≡◌, List, [], ◌∷◌, arith, length, All, ◌⊎◌}

abbrev pub IsByte : ℕ → Type 0
IsByte b = b < 256

-- Every byte but the last has the top bit, and the last has not.
abbrev pub IsLeb : List ℕ → Type 0
IsLeb [] = ⊥
IsLeb (b ∷ []) = b < 128
IsLeb (b ∷ c ∷ bs) = (128 ≤ b) × (b < 256) × IsLeb (c ∷ bs)

-- Every byte has the top bit: the front of an unfinished string.
abbrev pub IsOpen : List ℕ → Type 0
IsOpen = All (λ b. (128 ≤ b) × (b < 256))

-- The number in base 128, lowest digit first.
unfoldable pub leb_value : List ℕ → ℕ
leb_value [] = 0
leb_value (b ∷ bs) = b % 128 + 128 * leb_value bs

-- The last byte is not zero.
abbrev pub EndsNonzero : List ℕ → Type 0
EndsNonzero [] = ⊥
EndsNonzero (b ∷ []) = 0 < b
EndsNonzero (b ∷ c ∷ bs) = EndsNonzero (c ∷ bs)

-- No shorter LEB128 string has the same value: the last byte is not zero, or it is the only one.
abbrev pub IsMinimal : List ℕ → Type 0
IsMinimal bs = EndsNonzero bs ⊎ (bs ≡ 0 ∷ [])

pub leb_value_pos : (bs : List ℕ) → IsLeb bs → EndsNonzero bs → 0 < leb_value bs
unfolding leb_value
leb_value_pos [] h e = absurd h
leb_value_pos (b ∷ []) h e = omega arith
leb_value_pos (b ∷ c ∷ bs) (lo, hi, h) e = omega (arith, leb_value_pos (c ∷ bs) h e)

pub IsLeb-cons : (b : ℕ) (bs : List ℕ) → 128 ≤ b → b < 256 → IsLeb bs → IsLeb (b ∷ bs)
IsLeb-cons b [] lo hi h = absurd h
IsLeb-cons b (c ∷ bs) lo hi h = (lo, hi, h)

-- A LEB128 string that the decoder reads to its end.
pub record IsShortLeb (bs : List ℕ) : Type 0 where
  pub leb : IsLeb bs
  pub short : length bs ≤ 10
