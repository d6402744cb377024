-- ===== src/Wire/Frame/Accepts.antt =====
-- `decodeMultihopFrame` returns a frame exactly on the byte strings that stand for it.
use mathlib.Core.List.{append-nil, append_assoc}
use mathlib.Core.Path.{subst}
use native.Mathlib.Decide.{ℕ_discrete}
use warren_sdk_ts.Prelude.{ℕ, ◌≡◌, ◌↔◌, refl, ap, sym, ◌∙◌, List, [], ◌∷◌, ◌++◌, arith, length, All}
use warren_sdk_ts.Prelude.Int.{pos}
use warren_sdk_ts.Wire.Result.{ok, ok-injective, truncated_frame}
use warren_sdk_ts.Wire.Number.{to_number}
use warren_sdk_ts.Wire.Varint.Groups.{IsByte}
use warren_sdk_ts.Wire.Cursor.At.{
  At, At-start, outcome, run-outcome, on_bytes, on_u8, on_leb128, on_end,
}
use warren_sdk_ts.Wire.Frame.{
  WarrenMultihopFrame, hpke_version, exit_id_len, encapsulated_key_len, aead_tag_len,
}
use warren_sdk_ts.Wire.Cursor.Inversion.{
  continue-eq-ok, Ahead, returned-eq, Ahead-start, then_bytes, then_u8, then_leb128, then_end,
}
use warren_sdk_ts.Wire.Frame.Decode.{read_fields, read_frame, decode_multihop_frame}
use warren_sdk_ts.Wire.Frame.Grammar.{IsFrameOf}

-- The fields, where they are ahead and `extra` behind them.
read_fields-IsFrameOf :
    (whole bytes extra : List ℕ) (frame : WarrenMultihopFrame) (g : IsFrameOf bytes frame) (o : ℕ)
    → At whole o (
        frame.exit_id
        ++ (g.epoch
            ++ (g.seq
                ++ (frame.encapsulated_key
                    ++ (frame.aead_tag ++ (g.ct_len ++ (frame.ciphertext ++ extra)))))))
    → read_fields hpke_version whole o ≡ outcome extra (frame, length whole)
unfolding read_fields
read_fields-IsFrameOf whole bytes extra frame g o at =
    on_bytes o truncated_frame exit_id_len _ _ frame.exit_id _ at g.exit_id λ at1.
      on_leb128 _ _ _ g.epoch _ at1 g.epoch_leb λ at2. on_leb128 _ _ _ g.seq _ at2 g.seq_leb λ at3.
        on_bytes _ truncated_frame encapsulated_key_len _ _ frame.encapsulated_key _ at3
          g.encapsulated_key
          λ at4. on_bytes _ truncated_frame aead_tag_len _ _ frame.aead_tag _ at4 g.aead_tag λ at5.
            on_leb128 _ _ _ g.ct_len _ at5 g.ct_len_leb λ at6.
              on_bytes _ truncated_frame _ _ _ frame.ciphertext extra at6 g.ciphertext λ at7.
                on_end _ _ extra at7 ∙ λ i. outcome extra (
                  record {
                    version = sym g.version i;
                    exit_id = frame.exit_id;
                    epoch = sym g.epoch_value i;
                    seq = sym g.seq_value i;
                    encapsulated_key = frame.encapsulated_key;
                    aead_tag = frame.aead_tag;
                    ciphertext = frame.ciphertext;
                  },
                  length whole,
                )

read_frame-IsFrameOf :
    (bytes extra : List ℕ) (frame : WarrenMultihopFrame)
    → IsFrameOf bytes frame
    → read_frame (bytes ++ extra) 0 ≡ outcome extra (frame, length (bytes ++ extra))
unfolding read_frame
read_frame-IsFrameOf bytes extra frame g =
    let start =
      At-start (bytes ++ extra)
        (hpke_version
          ∷ (frame.exit_id
              ++ (g.epoch
                  ++ (g.seq
                      ++ (frame.encapsulated_key
                          ++ (frame.aead_tag ++ (g.ct_len ++ (frame.ciphertext ++ extra))))))))
        (rw g.layout (simp append_assoc)) in
    on_u8 0 truncated_frame _ _ hpke_version _ start
      λ at. read_fields-IsFrameOf (bytes ++ extra) bytes extra frame g 1 at

-- Where `extra` follows the bytes of a frame, the decoder returns the frame only if it is empty.
pub decode-IsFrameOf :
    (bytes extra : List ℕ) (frame : WarrenMultihopFrame)
    → IsFrameOf bytes frame
    → decode_multihop_frame (bytes ++ extra) ≡ outcome extra frame
unfolding decode_multihop_frame
decode-IsFrameOf bytes extra frame g =
    rw (read_frame-IsFrameOf bytes extra frame g)
      (run-outcome (bytes ++ extra) extra frame (length (bytes ++ extra)))

read_fields_seen :
    (bytes rest : List ℕ) (o : ℕ) (r : WarrenMultihopFrame × ℕ)
    → bytes ≡ hpke_version ∷ rest
    → Ahead bytes o rest
    → read_fields hpke_version bytes o ≡ ok r
    → IsFrameOf bytes r.0
unfolding read_fields
read_fields_seen bytes rest o r whole a e =
    then_bytes o rest r a truncated_frame exit_id_len _ e λ exit_id rest1 o1 len1 s1 a1 e1.
      then_leb128 o1 rest1 r a1 _ e1 λ epoch rest2 epoch_value o2 leb2 v2 s2 a2 e2.
        then_leb128 o2 rest2 r a2 _ e2 λ seq rest3 seq_value o3 leb3 v3 s3 a3 e3.
          then_bytes o3 rest3 r a3 truncated_frame encapsulated_key_len _ e3
            λ key rest4 o4 len4 s4 a4 e4.
              then_bytes o4 rest4 r a4 truncated_frame aead_tag_len _ e4
                λ tag rest5 o5 len5 s5 a5 e5.
                  then_leb128 o5 rest5 r a5 _ e5 λ ct_len rest6 len_value o6 leb6 v6 s6 a6 e6.
                    then_bytes o6 rest6 r a6 truncated_frame (to_number len_value) _ e6
                      λ ct rest7 o7 len7 s7 a7 e7. then_end o7 rest7 r a7 _ e7 λ o8 s8 e8.
                        let layout : rest
                            ≡ exit_id ++ (epoch ++ (seq ++ (key ++ (tag ++ (ct_len ++ ct))))) =
                          rw (s1, s2, s3, s4, s5, s6, s7, s8, append-nil ct) in
                        subst (IsFrameOf bytes) (returned-eq _ o8 r e8) (record {
                          epoch = epoch;
                          seq = seq;
                          ct_len = ct_len;
                          layout = whole ∙ ap (λ t. hpke_version ∷ t) layout;
                          version = refl;
                          exit_id = len1;
                          epoch_leb = leb2;
                          epoch_value = ap (λ v. pos (to_number v)) (sym v2);
                          seq_leb = leb3;
                          seq_value = ap pos (sym v3);
                          encapsulated_key = len4;
                          aead_tag = len5;
                          ct_len_leb = leb6;
                          ciphertext = len7 ∙ ap to_number (sym v6);
                        })

read_frame_seen :
    (bytes : List ℕ) (r : WarrenMultihopFrame × ℕ)
    → All IsByte bytes
    → read_frame bytes 0 ≡ ok r
    → IsFrameOf bytes r.0
unfolding read_frame
read_frame_seen bytes r h e =
    then_u8 0 bytes r (Ahead-start bytes h) truncated_frame _ e λ version rest o s a e1.
      elim (ℕ_discrete version hpke_version) [
        | yes same ↦
            read_fields_seen bytes rest o r (s ∙ ap (λ v. v ∷ rest) same) a (rw (same) at e1)
        | no other ↦ absurd (other (ground arith))
      ]

-- On byte strings `decodeMultihopFrame` returns `frame` exactly when the bytes are the version byte 1,
-- then an exit id, epoch, sequence number, key, tag and ciphertext in the layout of `IsFrameOf` with
-- nothing behind, and `frame` has those fields.
pub decode_multihop_frame_iff :
    (bytes : List ℕ) (frame : WarrenMultihopFrame)
    → All IsByte bytes
    → (decode_multihop_frame bytes ≡ ok frame) ↔ IsFrameOf bytes frame
unfolding decode_multihop_frame
decode_multihop_frame_iff bytes frame h = (
  λ e.
      let r = continue-eq-ok (read_frame bytes 0) bytes (λ x _ _. ok x) frame e in
      let same : r.value ≡ frame = ok-injective r.value frame r.second in
      subst (IsFrameOf bytes) same (read_frame_seen bytes (r.value, r.offset) h r.first),
  λ g. rw append-nil at (decode-IsFrameOf bytes [] frame g),
)
