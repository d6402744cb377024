-- ===== src/Discovery/Json.antt =====
-- The parsed documents of packages/core/src/discovery/{verify,multihop}.ts and the validators that the
-- two files share. A failed validator is `none`: each of them throws the code `json`. An absent property
-- is `undefined` in the source and `none` here.
use Prim.Native.Char.{code}
use Prim.Native.String.{String}
use text.Mathlib.Text.{◌==◌ as str_eq}
use warren_sdk_ts.Prelude.{
  ℕ, ◌*◌, ◌%◌, List, [], ◌∷◌, Option, none, some, Bool, true, false, ◌&&◌, ◌||◌, leb, ◌==◌,
  if◌then◌else◌, length,
}

mutual
  -- What `JSON.parse` returns. `number` is a number that is an integer and not negative.
  pub data Json : Type 0 where
    null : Json
    bool : Bool → Json
    number : ℕ → Json
    other_number : Json
    string : String → Json
    array : Items → Json
    object : Props → Json

  pub data Items : Type 0 where
    nil : Items
    item : Json → Items → Items

  pub data Props : Type 0 where
    end : Props
    prop : String → Json → Props → Props

abbrev pub items : Items → List Json
items nil = []
items (item v vs) = v ∷ items vs

abbrev pub props : Props → List (String × Json)
props end = []
props (prop k v ps) = (k, v) ∷ props ps

abbrev pub array_of : List Json → Json
array_of vs = array (go vs)
  where
    go : List Json → Items
    go [] = nil
    go (w ∷ ws) = item w (go ws)

abbrev pub object_of : List (String × Json) → Json
object_of ps = object (go ps)
  where
    go : List (String × Json) → Props
    go [] = end
    go ((k, v) ∷ qs) = prop k v (go qs)

unfoldable pub includes : List String → String → Bool
includes [] k = false
includes (j ∷ js) k = str_eq j k || includes js k

unfoldable pub property : String → List (String × Json) → Option Json
property k [] = none
property k ((j, v) ∷ ps) = let rest = property k ps in if str_eq j k then some v else rest

abbrev keys_of : List (String × Json) → List String
keys_of [] = []
keys_of ((k, v) ∷ ps) = k ∷ keys_of ps

abbrev all_in : List String → List String → Bool
all_in [] js = true
all_in (k ∷ ks) js = includes js k && all_in ks js

-- Every key of the object is allowed, and every required one is there.
unfoldable pub has_shape : List String → List String → List (String × Json) → Bool
unfolding includes
has_shape keys optional ps = all_allowed (keys_of ps) && all_in keys (keys_of ps)
  where
    all_allowed : List String → Bool
    all_allowed [] = true
    all_allowed (k ∷ ks) = (includes keys k || includes optional k) && all_allowed ks

unfoldable pub as_object : List String → List String → Option Json → Option (List (String × Json))
unfolding has_shape
as_object keys optional (some (object ps)) =
    if has_shape keys optional (props ps) then some (props ps) else none
as_object keys optional _ = none

abbrev pub as_array : Option Json → Option (List Json)
as_array (some (array vs)) = some (items vs)
as_array _ = none

abbrev pub as_string : Option Json → Option String
as_string (some (string s)) = some s
as_string _ = none

-- `Number.MAX_SAFE_INTEGER`
abbrev pub max_safe_integer : ℕ
max_safe_integer = 9007199254740991

unfoldable pub as_u64 : Option Json → Option ℕ
as_u64 (some (number n)) = if leb n max_safe_integer then some n else none
as_u64 _ = none

abbrev pub as_bool : Option Json → Option Bool
as_bool (some (bool b)) = some b
as_bool _ = none

-- A property that may be absent.
abbrev pub optional_field {ℓ} :
    {A : Type ℓ} → (Option Json → Option A) → Option Json → Option (Option A)
optional_field f none = some none
optional_field f (some v) = elim (f (some v)) [ none ↦ none | some a ↦ some (some a) ]

-- The codes of a text's characters
abbrev pub codes : String → List ℕ
codes String.[] = []
codes (String.◌∷◌ c s) = code c ∷ codes s

abbrev pub is_digit : ℕ → Bool
is_digit c = leb 48 c && leb c 57

abbrev pub is_hex_digit : ℕ → Bool
is_hex_digit c = is_digit c || (leb 97 c && leb c 102 || leb 65 c && leb c 70)

abbrev pub all_hex : List ℕ → Bool
all_hex [] = true
all_hex (c ∷ cs) = is_hex_digit c && all_hex cs

-- `/^[0-9a-f]{n}$/i`
unfoldable pub is_hex_of : ℕ → String → Bool
is_hex_of n s = length (codes s) == n && all_hex (codes s)

module _ (lower : String → String) where
  unfoldable pub as_fixed_hex : ℕ → Option Json → Option String
  unfolding is_hex_of
  as_fixed_hex bytes (some (string s)) = if is_hex_of (bytes * 2) s then some (lower s) else none
  as_fixed_hex bytes _ = none

  unfoldable pub as_hex : Option Json → Option String
  as_hex (some (string s)) =
      if length (codes s) % 2 == 0 && all_hex (codes s) then some (lower s) else none
  as_hex _ = none

-- The chain of validators, and the same one for each element of an array
infixl 5 ◌>>=◌
abbrev pub ◌>>=◌ {ℓ κ} : {A : Type ℓ} {B : Type κ} → Option A → (A → Option B) → Option B
none >>= f = none
some a >>= f = f a

abbrev pub each {ℓ} : {A : Type ℓ} → (Option Json → Option A) → List Json → Option (List A)
each f [] = some []
each f (v ∷ vs) = do a ← f (some v); rest ← each f vs; some (a ∷ rest)
