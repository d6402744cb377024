-- ===== src/Discovery/Verify/Read.antt =====
-- What a signed relay list is read as.
use Prim.Native.String.{String}
use text.Mathlib.TextEquality.{eq_iff}
use text.Mathlib.Text.{◌==◌ as str_eq}
use warren_sdk_ts.Prelude.{
  ◌≡◌, ◌==◌, ==_iff, inl, inr, refl, List, [], ◌∷◌, some, true, arith, Bool-cases, In,
}
use warren_sdk_ts.Discovery.Json.{Json, property, as_object, as_array, as_string, as_u64, each}
use warren_sdk_ts.Discovery.Fields.{
  IsObject, HasNumber, HasString, HasArray, IsPinned, as_object-IsObject, as_u64-HasNumber,
  as_string-HasString, as_array-HasArray,
}
use warren_sdk_ts.Discovery.Platform.{ok}
use warren_sdk_ts.Discovery.Verify.Node.{validate_node}
use warren_sdk_ts.Discovery.Verify.{SignedList, signed_version, read_list, is_pinned, pins_allow}

abbrev list_keys : List String
list_keys =
    "version" ∷ "nodes" ∷ "generation" ∷ "signed_at" ∷ "expires_at" ∷ "server_pubkey_hex"
    ∷ "signature_hex" ∷ []

-- The parsed text is an object of these fields and no other, of version 10.
pub record IsList (parsed : Json) (list : SignedList) : Type 0 where
  pub top : List (String × Json)
  pub is_object : IsObject list_keys parsed top
  pub version_number : HasNumber top "version" list.version
  pub version : list.version ≡ 10
  pub nodes : HasArray validate_node top "nodes" list.nodes
  pub generation : HasNumber top "generation" list.generation
  pub signed_at : HasNumber top "signed_at" list.signed_at
  pub expires_at : HasNumber top "expires_at" list.expires_at
  pub server_pubkey_hex : HasString top "server_pubkey_hex" list.server_pubkey_hex
  pub signature_hex : HasString top "signature_hex" list.signature_hex

record Steps (parsed : Json) (list : SignedList) : Type 0 where
  top : List (String × Json)
  raw : List Json
  is_object : as_object list_keys [] (some parsed) ≡ some top
  version_number : as_u64 (property "version" top) ≡ some list.version
  version : (list.version == signed_version) ≡ true
  server_pubkey_hex : as_string (property "server_pubkey_hex" top) ≡ some list.server_pubkey_hex
  signature_hex : as_string (property "signature_hex" top) ≡ some list.signature_hex
  generation : as_u64 (property "generation" top) ≡ some list.generation
  signed_at : as_u64 (property "signed_at" top) ≡ some list.signed_at
  expires_at : as_u64 (property "expires_at" top) ≡ some list.expires_at
  raw_nodes : as_array (property "nodes" top) ≡ some raw
  nodes : each validate_node raw ≡ some list.nodes

read_list-Steps :
    (parsed : Json) (list : SignedList) → read_list (some parsed) ≡ ok list → Steps parsed list
unfolding read_list
read_list-Steps parsed list h = ground arith

pub read_list-IsList :
    (parsed : Json) (list : SignedList) → read_list (some parsed) ≡ ok list → IsList parsed list
read_list-IsList parsed list h =
    let s = read_list-Steps parsed list h in
    record {
      top = s.top;
      is_object = as_object-IsObject list_keys parsed s.top s.is_object;
      version_number = as_u64-HasNumber s.top "version" list.version s.version_number;
      version = (==_iff list.version 10).0 s.version;
      nodes = as_array-HasArray s.top "nodes" validate_node s.raw list.nodes s.raw_nodes s.nodes;
      generation = as_u64-HasNumber s.top "generation" list.generation s.generation;
      signed_at = as_u64-HasNumber s.top "signed_at" list.signed_at s.signed_at;
      expires_at = as_u64-HasNumber s.top "expires_at" list.expires_at s.expires_at;
      server_pubkey_hex =
          as_string-HasString s.top "server_pubkey_hex" list.server_pubkey_hex s.server_pubkey_hex;
      signature_hex = as_string-HasString s.top "signature_hex" list.signature_hex s.signature_hex;
    }

module _ (lower : String → String) (key : String) where
  is_pinned-In :
      (pins : List String)
      → is_pinned lower key pins ≡ true
      → (pin : String) × In pin pins × (lower pin ≡ lower key)
  is_pinned-In [] h = absurd cc
  is_pinned-In (pin ∷ pins) h = elim (Bool-cases (str_eq (lower pin) (lower key))) [
    | inl e ↦ (pin, inl refl, (eq_iff (lower pin) (lower key)).0 e)
    | inr e ↦ let (q, i, same) = is_pinned-In pins (rw e at h) in (q, inr i, same)
  ]

  pub pins_allow-IsPinned :
      (pins : List String) → pins_allow lower key pins ≡ true → IsPinned lower key pins
  pins_allow-IsPinned [] h = inl refl
  pins_allow-IsPinned (pin ∷ pins) h = inr (is_pinned-In (pin ∷ pins) h)
