-- ===== src/Discovery/Fields.antt =====
-- What the validators of packages/core/src/discovery/{verify,multihop}.ts read of a parsed document.
use Prim.Native.String.{String}
use warren_sdk_ts.Prelude.{ℕ, ◌≤◌, ◌≡◌, ◌⊎◌, refl, List, [], Option, none, some, true, arith, In}
use warren_sdk_ts.Discovery.Json.{
  Json, Items, Props, null, bool, number, other_number, string, array, object, items, props,
  property, as_u64, as_string, as_array, as_object, has_shape, each,
}

-- An object with the keys given and no other
abbrev pub IsObject : List String → Json → List (String × Json) → Type 0
IsObject keys v top =
    (ps : Props) × (v ≡ object ps) × (has_shape keys [] top ≡ true) × (top ≡ props ps)

abbrev pub HasNumber : List (String × Json) → String → ℕ → Type 0
HasNumber top key n = (property key top ≡ some (number n)) × (n ≤ 9007199254740991)

abbrev pub HasString : List (String × Json) → String → String → Type 0
HasString top key s = property key top ≡ some (string s)

abbrev pub HasArray :
    {A : Type 0} → (Option Json → Option A) → List (String × Json) → String → List A → Type 0
HasArray f top key xs =
    (vs : Items) × (property key top ≡ some (array vs)) × (each f (items vs) ≡ some xs)

-- The key of a document is one of the pins, in lower case, when there are any.
abbrev pub IsPinned : (String → String) → String → List String → Type 0
IsPinned lower key pins = (pins ≡ []) ⊎ ((pin : String) × In pin pins × (lower pin ≡ lower key))

pub as_object-IsObject :
    (keys : List String) (v : Json) (top : List (String × Json))
    → as_object keys [] (some v) ≡ some top
    → IsObject keys v top
unfolding as_object
as_object-IsObject keys (object ps) top h = ground arith
as_object-IsObject keys null top h = absurd cc
as_object-IsObject keys (bool b) top h = absurd cc
as_object-IsObject keys (number n) top h = absurd cc
as_object-IsObject keys other_number top h = absurd cc
as_object-IsObject keys (string s) top h = absurd cc
as_object-IsObject keys (array vs) top h = absurd cc

module _ (top : List (String × Json)) (key : String) where
  pub as_u64-HasNumber : (n : ℕ) → as_u64 (property key top) ≡ some n → HasNumber top key n
  unfolding as_u64
  as_u64-HasNumber n h = go (property key top) h
    where
      go : (o : Option Json) → as_u64 o ≡ some n → (o ≡ some (number n)) × (n ≤ 9007199254740991)
      go none e = absurd cc
      go (some (number m)) e = ground arith
      go (some null) e = absurd cc
      go (some (bool b)) e = absurd cc
      go (some other_number) e = absurd cc
      go (some (string s)) e = absurd cc
      go (some (array vs)) e = absurd cc
      go (some (object ps)) e = absurd cc

  pub as_string-HasString :
      (s : String) → as_string (property key top) ≡ some s → HasString top key s
  as_string-HasString s h = go (property key top) h
    where
      go : (o : Option Json) → as_string o ≡ some s → o ≡ some (string s)
      go none e = absurd cc
      go (some (number m)) e = absurd cc
      go (some null) e = absurd cc
      go (some (bool b)) e = absurd cc
      go (some other_number) e = absurd cc
      go (some (string t)) e = cc
      go (some (array vs)) e = absurd cc
      go (some (object ps)) e = absurd cc

  pub as_array-HasArray :
      {A : Type 0} (f : Option Json → Option A) (vs : List Json) (xs : List A)
      → as_array (property key top) ≡ some vs
      → each f vs ≡ some xs
      → HasArray f top key xs
  as_array-HasArray f vs xs h k = go (property key top) h
    where
      go :
          (o : Option Json)
          → as_array o ≡ some vs
          → (ws : Items) × (o ≡ some (array ws)) × (each f (items ws) ≡ some xs)
      go none e = absurd cc
      go (some (number m)) e = absurd cc
      go (some null) e = absurd cc
      go (some (bool b)) e = absurd cc
      go (some other_number) e = absurd cc
      go (some (string t)) e = absurd cc
      go (some (array ws)) e = let same : items ws ≡ vs = cc in (ws, refl, rw same k)
      go (some (object ps)) e = absurd cc
