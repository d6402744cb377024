-- ===== src/Host/Framing/Chunks.antt =====
-- The decoder of native frames does not depend on how its input is cut into chunks.
use warren_sdk_ts.Prelude.{
  ℕ, zero, suc, ◌+◌, ◌≤◌, ◌<◌, ◌≡◌, refl, ap, sym, ◌∙◌, inl, inr, List, [], ◌∷◌, ◌++◌, append_assoc,
  Option, ltb, Bool-cases, Option-cases, arith, length, take, drop, length-append, length-drop,
  le→ltb,
}
use warren_sdk_ts.Host.Framing.{
  read_u32_le, max_native_frame_bytes, Next, waiting, too_long, frame, next, Pushed, returned,
  over_cap, bad_json, prepend, on_json, on_next, drain, push,
}

take-append_le : (n : ℕ) (xs ys : List ℕ) → n ≤ length xs → take n (xs ++ ys) ≡ take n xs
take-append_le zero xs ys h = refl
take-append_le (suc n) [] ys h = absurd (omega arith)
take-append_le (suc n) (x ∷ xs) ys h = ap (λ t. x ∷ t) (take-append_le n xs ys (omega arith))

drop-append_le : (n : ℕ) (xs ys : List ℕ) → n ≤ length xs → drop n (xs ++ ys) ≡ drop n xs ++ ys
drop-append_le zero xs ys h = refl
drop-append_le (suc n) [] ys h = absurd (omega arith)
drop-append_le (suc n) (x ∷ xs) ys h = drop-append_le n xs ys (omega arith)

read_u32_le-append : (xs ys : List ℕ) → 4 ≤ length xs → read_u32_le (xs ++ ys) ≡ read_u32_le xs
unfolding read_u32_le
read_u32_le-append (a ∷ b ∷ c ∷ d ∷ xs) ys h = refl
read_u32_le-append [] ys h = absurd (omega arith)
read_u32_le-append (a ∷ []) ys h = absurd (omega arith)
read_u32_le-append (a ∷ b ∷ []) ys h = absurd (omega arith)
read_u32_le-append (a ∷ b ∷ c ∷ []) ys h = absurd (omega arith)

-- A buffer whose front is a frame, by its parts.
pub record IsFramed (buffer json rest : List ℕ) : Type 0 where
  pub prefix : 4 ≤ length buffer
  pub under_cap : read_u32_le buffer ≤ max_native_frame_bytes
  pub whole : 4 + read_u32_le buffer ≤ length buffer
  pub json_eq : json ≡ take (read_u32_le buffer) (drop 4 buffer)
  pub rest_eq : rest ≡ drop (4 + read_u32_le buffer) buffer

next-IsFramed :
    (buffer json rest : List ℕ) → next buffer ≡ frame json rest → IsFramed buffer json rest
unfolding next
next-IsFramed buffer json rest e = elim (Bool-cases (ltb (length buffer) 4)) [
  | inl a ↦ absurd (let h = rw a at e in cc)
  | inr a ↦ elim (Bool-cases (ltb max_native_frame_bytes (read_u32_le buffer))) [
    | inl b ↦ absurd (let h = rw (a, b) at e in cc)
    | inr b ↦ elim (Bool-cases (ltb (length buffer) (4 + read_u32_le buffer))) [
      | inl c ↦ absurd (let h = rw (a, b, c) at e in cc)
      | inr c ↦
          let h = rw (a, b, c) at e in
          record {
            prefix = ground arith;
            under_cap = ground arith;
            whole = ground arith;
            json_eq = cc;
            rest_eq = cc;
          }
    ]
  ]
]

pub IsFramed-next :
    (buffer json rest : List ℕ) → IsFramed buffer json rest → next buffer ≡ frame json rest
unfolding next
IsFramed-next buffer json rest h = rw (
  le→ltb (length buffer) 4 h.prefix,
  le→ltb max_native_frame_bytes (read_u32_le buffer) h.under_cap,
  le→ltb (length buffer) (4 + read_u32_le buffer) h.whole,
  h.json_eq,
  h.rest_eq,
)

next-append :
    (buffer json rest chunk : List ℕ)
    → next buffer ≡ frame json rest
    → next (buffer ++ chunk) ≡ frame json (rest ++ chunk)
next-append buffer json rest chunk e =
    let h : IsFramed buffer json rest = next-IsFramed buffer json rest e in
    let size : read_u32_le (buffer ++ chunk) ≡ read_u32_le buffer =
      read_u32_le-append buffer chunk h.prefix in
    let behind : drop 4 (buffer ++ chunk) ≡ drop 4 buffer ++ chunk =
      drop-append_le 4 buffer chunk h.prefix in
    let fits : read_u32_le buffer ≤ length (drop 4 buffer) =
      omega (arith, length-drop 4 buffer, h.whole) in
    IsFramed-next (buffer ++ chunk) json (rest ++ chunk) (record {
      prefix = omega (arith, length-append buffer chunk, h.prefix);
      under_cap = rw size h.under_cap;
      whole = rw size (omega (arith, length-append buffer chunk, h.whole));
      json_eq =
          rw (size, behind)
            (h.json_eq ∙ sym (take-append_le (read_u32_le buffer) (drop 4 buffer) chunk fits));
      rest_eq =
          rw (size, drop-append_le (4 + read_u32_le buffer) buffer chunk h.whole)
            (ap (λ t. t ++ chunk) h.rest_eq);
    })

next_shorter :
    (buffer json rest : List ℕ) → next buffer ≡ frame json rest → length rest < length buffer
next_shorter buffer json rest e =
    let h : IsFramed buffer json rest = next-IsFramed buffer json rest e in
    rw h.rest_eq (omega (arith, length-drop (4 + read_u32_le buffer) buffer, h.whole))

pub next_nil : next [] ≡ waiting
unfolding next
next_nil = refl

module _ {M : Type 0} (parse : List ℕ → Option M) where
  -- The loop gives one result whatever its fuel, from the length of the buffer on: fuel of the buffer's
  -- length is enough for it to end as the code's loop does.
  pub drain_fuel :
      (f g : ℕ) (buffer : List ℕ)
      → length buffer ≤ f
      → length buffer ≤ g
      → drain parse f buffer ≡ drain parse g buffer
  unfolding drain
  drain_fuel zero zero buffer hf hg = refl
  drain_fuel zero (suc g) [] hf hg = rw next_nil refl
  drain_fuel zero (suc g) (b ∷ buffer) hf hg = absurd (omega arith)
  drain_fuel (suc f) zero [] hf hg = rw next_nil refl
  drain_fuel (suc f) zero (b ∷ buffer) hf hg = absurd (omega arith)
  drain_fuel (suc f) (suc g) buffer hf hg = go (next buffer) refl (λ rest. drain_fuel f g rest)
    where
      go :
          (n : Next)
          → next buffer ≡ n
          → ((rest : List ℕ)
              → length rest ≤ f
              → length rest ≤ g
              → drain parse f rest ≡ drain parse g rest)
          → on_next parse buffer (drain parse f) n ≡ on_next parse buffer (drain parse g) n
      go waiting e ih = refl
      go too_long e ih = refl
      go (frame json rest) e ih =
          let short = next_shorter buffer json rest e in
          ap (on_json parse buffer (parse json)) (ih rest (omega arith) (omega arith))

  prepend-prepend :
      (m : M) (ms : List M) (p : Pushed M) → prepend (m ∷ []) (prepend ms p) ≡ prepend (m ∷ ms) p
  prepend-prepend m ms (returned buffer messages) = refl
  prepend-prepend m ms (over_cap buffer) = refl
  prepend-prepend m ms (bad_json buffer) = refl

  prepend-nil : (p : Pushed M) → prepend [] p ≡ p
  prepend-nil (returned buffer messages) = refl
  prepend-nil (over_cap buffer) = refl
  prepend-nil (bad_json buffer) = refl

  -- What a decoder that returned has left and read: the bytes behind its messages.
  returned_left :
      (a b : List ℕ) (ms ns : List M) → returned a ms ≡ returned b ns → (a ≡ b) × (ms ≡ ns)
  returned_left a b ms ns e = (cc, cc)

  -- A buffer that was left as it was, for want of bytes.
  unmoved :
      (g h : ℕ) (buffer chunk left : List ℕ) (ms : List M)
      → length (buffer ++ chunk) ≤ g
      → length (left ++ chunk) ≤ h
      → returned buffer [] ≡ returned left ms
      → drain parse g (buffer ++ chunk) ≡ prepend ms (drain parse h (left ++ chunk))
  unmoved g h buffer chunk left ms hg hh e =
      let (a, b) = returned_left buffer left [] ms e in
      let same : left ≡ buffer = sym a in
      let none_read : ms ≡ [] = sym b in
      let hb : length (buffer ++ chunk) ≤ h = rw same at hh in
      rw (none_read, same)
        (drain_fuel g h (buffer ++ chunk) hg hb
          ∙ sym (prepend-nil (drain parse h (buffer ++ chunk))))

  -- One frame and its message, and then the rest.
  one_more :
      (m : M) (g h : ℕ) (chunk rest left : List ℕ) (ms : List M) (p : Pushed M)
      → ((b : List ℕ) (ns : List M)
          → p ≡ returned b ns
          → length (b ++ chunk) ≤ h
          → drain parse g (rest ++ chunk) ≡ prepend ns (drain parse h (b ++ chunk)))
      → length (left ++ chunk) ≤ h
      → prepend (m ∷ []) p ≡ returned left ms
      → prepend (m ∷ []) (drain parse g (rest ++ chunk))
        ≡ prepend ms (drain parse h (left ++ chunk))
  one_more m g h chunk rest left ms (over_cap b) ih hh e = absurd cc
  one_more m g h chunk rest left ms (bad_json b) ih hh e = absurd cc
  one_more m g h chunk rest left ms (returned b ns) ih hh e =
      let (same, read) = returned_left b left (m ∷ ns) ms e in
      let back : left ≡ b = sym same in
      let all_read : ms ≡ m ∷ ns = sym read in
      let hb : length (b ++ chunk) ≤ h = rw back at hh in
      let later : drain parse g (rest ++ chunk) ≡ prepend ns (drain parse h (b ++ chunk)) =
        ih b ns refl hb in
      rw (all_read, back, later) (prepend-prepend m ns (drain parse h (b ++ chunk)))

  drain-append :
      (f g h : ℕ) (buffer chunk left : List ℕ) (ms : List M)
      → length buffer ≤ f
      → length (buffer ++ chunk) ≤ g
      → length (left ++ chunk) ≤ h
      → drain parse f buffer ≡ returned left ms
      → drain parse g (buffer ++ chunk) ≡ prepend ms (drain parse h (left ++ chunk))
  unfolding drain
  drain-append zero g h buffer chunk left ms hf hg hh e = unmoved g h buffer chunk left ms hg hh e
  drain-append (suc f) g h buffer chunk left ms hf hg hh e =
      go g hg (next buffer) refl (λ g' rest b ns. drain-append f g' h rest chunk b ns) e
    where
      go :
          (g : ℕ)
          → length (buffer ++ chunk) ≤ g
          → (n : Next) → next buffer ≡ n
          → ((g' : ℕ) (rest b : List ℕ) (ns : List M)
              → length rest ≤ f
              → length (rest ++ chunk) ≤ g'
              → length (b ++ chunk) ≤ h
              → drain parse f rest ≡ returned b ns
              → drain parse g' (rest ++ chunk) ≡ prepend ns (drain parse h (b ++ chunk)))
          → on_next parse buffer (drain parse f) n ≡ returned left ms
          → drain parse g (buffer ++ chunk) ≡ prepend ms (drain parse h (left ++ chunk))
      go g hg waiting w ih e = unmoved g h buffer chunk left ms hg hh e
      go g hg too_long w ih e = absurd cc
      go zero hg (frame json rest) w ih e =
          absurd (omega (arith, next_shorter buffer json rest w, length-append buffer chunk))
      go (suc g) hg (frame json rest) w ih e =
          let short = next_shorter buffer json rest w in
          let after : next (buffer ++ chunk) ≡ frame json (rest ++ chunk) =
            next-append buffer json rest chunk w in
          elim (Option-cases (parse json)) [
            | inl p ↦ absurd (let q = rw p at e in cc)
            | inr (m, p) ↦
                rw (after, p)
                  (one_more m g h chunk rest left ms (drain parse f rest)
                    (λ b ns r hb.
                      ih g rest b ns (omega arith)
                        (omega (arith, length-append rest chunk, length-append buffer chunk)) hb r)
                    hh (rw p at e))
          ]

  -- A push that returns leaves in the buffer what the later bytes need: pushing a second chunk then
  -- gives the same buffer, the same error or the same further messages as pushing the two chunks as
  -- one, whose messages are those of the first push and then those of the second.
  pub push-append :
      (buffer first second left : List ℕ) (ms : List M)
      → push parse buffer first ≡ returned left ms
      → push parse buffer (first ++ second) ≡ prepend ms (push parse left second)
  unfolding push
  push-append buffer first second left ms e =
      let joined : buffer ++ (first ++ second) ≡ (buffer ++ first) ++ second =
        sym (append_assoc buffer first second) in
      let fuel : length (buffer ++ first) ≤ length (buffer ++ first) = omega arith in
      let fuel' : length ((buffer ++ first) ++ second) ≤ length ((buffer ++ first) ++ second) =
        omega arith in
      let fuel'' : length (left ++ second) ≤ length (left ++ second) = omega arith in
      rw joined (drain-append _ _ _ (buffer ++ first) second left ms fuel fuel' fuel'' e)
