-- ===== src/Tokens/Store.antt =====
-- The containers of `TokenManager`: the map from epochs to tokens, in insertion order, and the sets
-- of settled epochs and of held serials.
use Prim.Native.String.{String}
use text.Mathlib.Text.{◌==◌ as str_eq}
use warren_sdk_ts.Prelude.{
  ℕ, ◌≡◌, refl, ap, inl, inr, List, [], ◌∷◌, Bool, true, false, ltb, ◌==◌, if◌then◌else◌,
  Bool-cases, ==_iff, ==_refl,
}

-- The bytes of a serialized token.
abbrev pub Bytes : Type 0
Bytes = List ℕ

abbrev pub Stock : Type 0
Stock = List (ℕ × List Bytes)

-- `store.get(epoch) ?? []`
unfoldable pub tokens_of : ℕ → Stock → List Bytes
tokens_of epoch [] = []
tokens_of epoch ((e, tokens) ∷ stock) = if e == epoch then tokens else tokens_of epoch stock

-- `store.set(epoch, tokens)`
unfoldable pub set_tokens : ℕ → List Bytes → Stock → Stock
set_tokens epoch tokens [] = (epoch, tokens) ∷ []
set_tokens epoch tokens ((e, old) ∷ stock) =
    let rest = set_tokens epoch tokens stock in
    if e == epoch then (epoch, tokens) ∷ stock else (e, old) ∷ rest

-- `store.delete(epoch)`
unfoldable pub delete_epoch : ℕ → Stock → Stock
delete_epoch epoch [] = []
delete_epoch epoch ((e, tokens) ∷ stock) =
    let rest = delete_epoch epoch stock in if e == epoch then rest else (e, tokens) ∷ rest

-- `pruneBefore`
unfoldable pub prune_before : ℕ → Stock → Stock
prune_before min_epoch [] = []
prune_before min_epoch ((e, tokens) ∷ stock) =
    let rest = prune_before min_epoch stock in if ltb e min_epoch then rest else (e, tokens) ∷ rest

-- `settled.delete` on every epoch that is over
unfoldable pub settled_from : ℕ → List ℕ → List ℕ
settled_from current [] = []
settled_from current (e ∷ settled) =
    let rest = settled_from current settled in if ltb e current then rest else e ∷ rest

unfoldable pub has_epoch : ℕ → List ℕ → Bool
has_epoch epoch [] = false
has_epoch epoch (e ∷ settled) = if e == epoch then true else has_epoch epoch settled

unfoldable pub has_key : String → List String → Bool
has_key key [] = false
has_key key (k ∷ held) = if str_eq k key then true else has_key key held

unfoldable pub delete_key : String → List String → List String
delete_key key [] = []
delete_key key (k ∷ held) =
    let rest = delete_key key held in if str_eq k key then rest else k ∷ rest

pub set_tokens-tokens_of :
    (epoch : ℕ) (tokens : List Bytes) (stock : Stock)
    → tokens_of epoch (set_tokens epoch tokens stock) ≡ tokens
unfolding tokens_of set_tokens
set_tokens-tokens_of epoch tokens [] = rw (==_refl epoch)
set_tokens-tokens_of epoch tokens ((e, old) ∷ stock) = elim (Bool-cases (e == epoch)) [
  | inl h ↦ rw (h, ==_refl epoch)
  | inr h ↦ rw (h, h) (set_tokens-tokens_of epoch tokens stock)
]

pub tokens_of-deleted :
    (epoch : ℕ) (stock : Stock) → tokens_of epoch (delete_epoch epoch stock) ≡ []
unfolding tokens_of delete_epoch
tokens_of-deleted epoch [] = refl
tokens_of-deleted epoch ((e, old) ∷ stock) = elim (Bool-cases (e == epoch)) [
  | inl h ↦ rw h (tokens_of-deleted epoch stock)
  | inr h ↦ rw (h, h) (tokens_of-deleted epoch stock)
]

pub delete_key-absent :
    (key : String) (held : List String) → has_key key held ≡ false → delete_key key held ≡ held
unfolding has_key delete_key
delete_key-absent key [] h = refl
delete_key-absent key (k ∷ held) h = elim (Bool-cases (str_eq k key)) [
  | inl e ↦ absurd cc
  | inr e ↦ rw e (ap (λ t. k ∷ t) (delete_key-absent key held (rw e at h)))
]

pub set_tokens-other :
    (epoch other : ℕ) (tokens : List Bytes) (stock : Stock)
    → (epoch == other) ≡ false
    → tokens_of other (set_tokens epoch tokens stock) ≡ tokens_of other stock
unfolding tokens_of set_tokens
set_tokens-other epoch other tokens [] ne = rw ne refl
set_tokens-other epoch other tokens ((e, old) ∷ stock) ne = elim (Bool-cases (e == epoch)) [
  | inl h ↦
      let same : e ≡ epoch = (==_iff e epoch).0 h in
      let ne' : (e == other) ≡ false = rw same ne in rw (h, ne, ne') refl
  | inr h ↦ rw h (elim (Bool-cases (e == other)) [
    | inl f ↦ rw f refl
    | inr f ↦ rw f (set_tokens-other epoch other tokens stock ne)
  ])
]

pub delete_epoch-other :
    (epoch other : ℕ) (stock : Stock)
    → (epoch == other) ≡ false
    → tokens_of other (delete_epoch epoch stock) ≡ tokens_of other stock
unfolding tokens_of delete_epoch
delete_epoch-other epoch other [] ne = refl
delete_epoch-other epoch other ((e, old) ∷ stock) ne = elim (Bool-cases (e == epoch)) [
  | inl h ↦
      let same : e ≡ epoch = (==_iff e epoch).0 h in
      let ne' : (e == other) ≡ false = rw same ne in
      rw (h, ne') (delete_epoch-other epoch other stock ne)
  | inr h ↦ rw h (elim (Bool-cases (e == other)) [
    | inl f ↦ rw f refl
    | inr f ↦ rw f (delete_epoch-other epoch other stock ne)
  ])
]
