-- ===== src/Discovery/Ss58/RoundTrip.antt =====
-- An encoded address decodes to its key.
use Prim.Native.String.{String}
use warren_sdk_ts.Prelude.{
  ℕ, ◌+◌, ◌*◌, ◌/◌, ◌%◌, ◌<◌, ◌≤◌, ◌≡◌, refl, [], ◌∷◌, ◌++◌, Option, some, Bool, true, false, ◌&&◌,
  ◌==◌, ==_iff, arith, length, take, drop, sym, ap, append_assoc, take-append, drop-append, ◌∙◌,
  length-append,
}
use warren_sdk_ts.Prelude.Bits.{holds_below, holds_below-lt}
use warren_sdk_ts.Discovery.Json.{◌>>=◌}
use warren_sdk_ts.Discovery.Platform.{Bytes, Platform}
use warren_sdk_ts.Discovery.Ss58.{
  encode_prefix, prefix_len, decode_prefix, same_bytes, checksum, encode_address, decode_key,
  decode_data, decode_address,
}

-- The encoding of a prefix has as many bytes as its first announces, and stands for the prefix.
abbrev reads_back : ℕ → Option Bytes → Bool
reads_back prefix (some (first ∷ [])) =
    prefix_len first == 1 && decode_prefix (first ∷ 0 ∷ []) == prefix
reads_back prefix (some (first ∷ second ∷ [])) =
    prefix_len first == 2 && decode_prefix (first ∷ second ∷ []) == prefix
reads_back prefix _ = false

prefix_table :
    holds_below 64
      (λ h. holds_below 256 (λ l. reads_back (h * 256 + l) (encode_prefix (h * 256 + l))))
    ≡ true
unfolding holds_below encode_prefix prefix_len decode_prefix
prefix_table = refl

prefix_reads_back : (prefix : ℕ) → prefix ≤ 16383 → reads_back prefix (encode_prefix prefix) ≡ true
prefix_reads_back prefix h =
    let low : prefix % 256 < 256 = omega arith in
    let high : prefix / 256 < 64 = omega arith in
    let whole : prefix / 256 * 256 + prefix % 256 ≡ prefix = omega arith in
    let row = holds_below-lt 64 _ (prefix / 256) prefix_table high in
    let cell = holds_below-lt 256 _ (prefix % 256) row low in rw whole at cell

take_front : (n : ℕ) (xs ys : Bytes) → length xs ≡ n → take n (xs ++ ys) ≡ xs
take_front n xs ys h = rw (sym h) (take-append xs ys)

drop_front : (n : ℕ) (xs ys : Bytes) → length xs ≡ n → drop n (xs ++ ys) ≡ ys
drop_front n xs ys h = rw (sym h) (drop-append xs ys)

same_bytes_refl : (xs : Bytes) → same_bytes xs xs ≡ true
same_bytes_refl [] = refl
same_bytes_refl (x ∷ xs) = rw ((==_iff x x).1 refl, same_bytes_refl xs) refl

length-take_two : (xs : Bytes) → 2 ≤ length xs → length (take 2 xs) ≡ 2
length-take_two [] h = absurd (omega arith)
length-take_two (x ∷ []) h = absurd (omega arith)
length-take_two (x ∷ y ∷ xs) h = refl

module _ (p : Platform) where
  decode_key-encoded :
      ((bytes : Bytes) → 2 ≤ length (p.blake2b bytes))
      → (prefix len : ℕ) (front key : Bytes) → length front ≡ len
      → length key ≡ 32
      → decode_prefix ((front ++ key) ++ checksum p (front ++ key)) ≡ prefix
      → decode_key p prefix len ((front ++ key) ++ checksum p (front ++ key)) ≡ some key
  unfolding decode_key
  decode_key-encoded long prefix len front key hf hk hp =
      let two : length (checksum p (front ++ key)) ≡ 2 =
        (unfold checksum in length-take_two _ (long _)) in
      let payload : length (front ++ key) ≡ len + 32 = omega (arith, length-append front key) in
      let total : length ((front ++ key) ++ checksum p (front ++ key)) ≡ len + 34 =
        omega (arith, length-append (front ++ key) (checksum p (front ++ key))) in
      let behind : take 32 (drop len ((front ++ key) ++ checksum p (front ++ key))) ≡ key =
        rw (append_assoc front key (checksum p (front ++ key))) (
          rw (drop_front len front (key ++ checksum p (front ++ key)) hf)
            (take_front 32 key (checksum p (front ++ key)) hk)) in
      rw
        (
          decode_key,
          total,
          (==_iff (len + 34) (len + 34)).1 refl,
          hp,
          (==_iff prefix prefix).1 refl,
          drop_front (len + 32) (front ++ key) (checksum p (front ++ key)) payload,
          take_front (len + 32) (front ++ key) (checksum p (front ++ key)) payload,
          take_whole (checksum p (front ++ key)) two,
          same_bytes_refl (checksum p (front ++ key)),
          behind,
        )
        refl
    where
      take_whole : (xs : Bytes) → length xs ≡ 2 → take 2 xs ≡ xs
      take_whole xs h = rw (sym h) (take_all xs)
        where
          take_all : (ys : Bytes) → take (length ys) ys ≡ ys
          take_all [] = refl
          take_all (y ∷ ys) = ap (λ t. y ∷ t) (take_all ys)

parts : (a b c d : ℕ) → (a == b && c == d) ≡ true → (a ≡ b) × (c ≡ d)
parts a b c d h = ground arith

one_byte : (first : ℕ) (rest : Bytes) → prefix_len first ≡ 1 → decode_prefix (first ∷ rest) ≡ first
unfolding decode_prefix
one_byte first [] h = refl
one_byte first (second ∷ rest) h = rw h refl

module _ (p : Platform) where
  -- An address of a 32-byte key, for a prefix of at most 14 bits, is made and decodes to the key. Base58
  -- is assumed to decode what it encodes, and the hash to have two bytes at least.
  pub decode_address-encode_address :
      ((bytes : Bytes) → p.base58_decode (p.base58_encode bytes) ≡ some bytes)
      → ((bytes : Bytes) → 2 ≤ length (p.blake2b bytes))
      → (prefix : ℕ) (key : Bytes) → prefix ≤ 16383
      → length key ≡ 32
      → (address : String) × (encode_address p key prefix ≡ some address)
        × (decode_address p address prefix ≡ some key)
  unfolding encode_address decode_address
  decode_address-encode_address base58 long prefix key hp hk =
      rw ((==_iff (length key) 32).1 hk) (go (encode_prefix prefix) (prefix_reads_back prefix hp))
    where
      decoded :
          (front : Bytes)
          → decode_data p prefix ((front ++ key) ++ checksum p (front ++ key)) ≡ some key
          → decode_address p (p.base58_encode ((front ++ key) ++ checksum p (front ++ key))) prefix
            ≡ some key
      decoded front h = rw (base58 ((front ++ key) ++ checksum p (front ++ key))) h

      go :
          (o : Option Bytes)
          → reads_back prefix o ≡ true
          → (address : String) × ((o >>= λ front.
                some (p.base58_encode ((front ++ key) ++ checksum p (front ++ key))))
              ≡ some address)
            × (decode_address p address prefix ≡ some key)
      go Option.none h = absurd cc
      go (some []) h = absurd cc
      go (some (first ∷ [])) h =
          let (len, back) = parts (prefix_len first) 1 (decode_prefix (first ∷ 0 ∷ [])) prefix h in
          let same : first ≡ prefix = sym (one_byte first (0 ∷ []) len) ∙ back in
          (
            _,
            refl,
            decoded (first ∷ []) (
                decode_key-encoded p long prefix (prefix_len first) (first ∷ []) key (sym len) hk
                  (one_byte first _ len ∙ same)),
          )
      go (some (first ∷ second ∷ [])) h =
          let (len, back) =
            parts (prefix_len first) 2 (decode_prefix (first ∷ second ∷ [])) prefix h in
          (
            _,
            refl,
            decoded (first ∷ second ∷ []) (
                decode_key-encoded p long prefix (prefix_len first) (first ∷ second ∷ []) key
                  (sym len) hk (unfold decode_prefix in back)),
          )
      go (some (first ∷ second ∷ third ∷ rest)) h = absurd cc
