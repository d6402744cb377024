-- ===== src/Tokens/Manager/Take.antt =====
-- `takeCurrentStack`: what it hands out and what it leaves.
use warren_sdk_ts.Prelude.{
  ℕ, min, ◌≡◌, refl, ap, List, [], ◌∷◌, ◌++◌, append-nil, some, false, ◌==◌, arith, length,
}
use warren_sdk_ts.Tokens.Store.{
  Bytes, tokens_of, set_tokens-tokens_of, set_tokens-other, tokens_of-deleted, delete_epoch-other,
}
use warren_sdk_ts.Tokens.Manager.{
  TokenManager, epoch_at, available, init, last, put_back, persist, take_from, take_current_stack,
}

init-last : (ts : List Bytes) → init ts ++ last ts ≡ ts
init-last [] = refl
init-last (t ∷ []) = refl
init-last (t ∷ u ∷ ts) = ap (λ us. t ∷ us) (init-last (u ∷ ts))

length-last : (t : Bytes) (ts : List Bytes) → length (last (t ∷ ts)) ≡ 1
length-last t [] = refl
length-last t (u ∷ ts) = length-last u ts

kept :
    (epoch : ℕ) (ts : List Bytes) (m : TokenManager)
    → tokens_of epoch (put_back epoch ts m.store) ≡ ts
kept epoch [] m = tokens_of-deleted epoch m.store
kept epoch (t ∷ ts) m = set_tokens-tokens_of epoch (t ∷ ts) m.store

untouched :
    (epoch other : ℕ) (ts : List Bytes) (m : TokenManager)
    → (epoch == other) ≡ false
    → tokens_of other (put_back epoch ts m.store) ≡ tokens_of other m.store
untouched epoch other [] m ne = delete_epoch-other epoch other m.store ne
untouched epoch other (t ∷ ts) m ne = set_tokens-other epoch other (t ∷ ts) m.store ne

-- What a taking leaves: the tokens of the epoch but the one handed out, and every other epoch as it is.
record Taken (epoch : ℕ) (m : TokenManager) (after : TokenManager × List Bytes) : Type 0 where
  split : tokens_of epoch after.0.store ++ after.1 ≡ tokens_of epoch m.store
  counted : length after.1 ≡ min 1 (available m epoch)
  others :
      (other : ℕ)
      → (epoch == other) ≡ false
      → tokens_of other after.0.store ≡ tokens_of other m.store

take_from-Taken :
    (epoch : ℕ) (ts : List Bytes) (m : TokenManager)
    → tokens_of epoch m.store ≡ ts
    → Taken epoch m (take_from epoch ts m)
unfolding take_from persist available
take_from-Taken epoch [] m e = record {
  split = append-nil (tokens_of epoch m.store);
  counted = rw e refl;
  others = λ other ne. refl;
}
take_from-Taken epoch (t ∷ ts) m e = record {
  split = rw (kept epoch (init (t ∷ ts)) m, e) (init-last (t ∷ ts));
  counted = rw (e, length-last t ts) one;
  others = λ other ne. untouched epoch other (init (t ∷ ts)) m ne;
}
  where
    one : 1 ≡ min 1 (length (t ∷ ts))
    one = omega arith

-- In an epoch, taking hands out its last token when it has one, and one at most; what stays in the
-- store and what is handed out are together what was there, in its order, and no other epoch is
-- touched.
pub take_current_stack_lem :
    (m : TokenManager) (now epoch : ℕ)
    → epoch_at m now ≡ some epoch
    → (tokens_of epoch (take_current_stack m now).0.store ++ (take_current_stack m now).1
        ≡ tokens_of epoch m.store)
      × (length (take_current_stack m now).1 ≡ min 1 (available m epoch))
      × ((other : ℕ)
          → (epoch == other) ≡ false
          → tokens_of other (take_current_stack m now).0.store ≡ tokens_of other m.store)
unfolding take_current_stack
take_current_stack_lem m now epoch e =
    let t : Taken epoch m (take_from epoch (tokens_of epoch m.store) m) =
      take_from-Taken epoch (tokens_of epoch m.store) m refl in
    rw (take_current_stack, e) (t.split, t.counted, t.others)
