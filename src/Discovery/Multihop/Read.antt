-- ===== src/Discovery/Multihop/Read.antt =====
-- What a multi-hop directory is read as, and the root that certifies its operational key.
use Prim.Native.String.{String}
use warren_sdk_ts.Prelude.{
  ◌≡◌, ◌⊎◌, ◌==◌, ==_iff, inl, inr, refl, List, [], ◌∷◌, some, true, arith, Bool-cases, In, length,
}
use warren_sdk_ts.Discovery.Json.{Json, property, as_object, as_array, as_string, as_u64, each}
use warren_sdk_ts.Discovery.Fields.{
  IsObject, HasNumber, HasString, HasArray, as_object-IsObject, as_u64-HasNumber,
  as_string-HasString, as_array-HasArray,
}
use warren_sdk_ts.Discovery.Platform.{Bytes, Platform, Checked, ok, fail}
use warren_sdk_ts.Discovery.Multihop.Node.{validate_node}
use warren_sdk_ts.Discovery.Multihop.Vouch.{WarrenDirectoryErrorCode, root_operational_v1}
use warren_sdk_ts.Discovery.Multihop.Signatures.{Signs, verify_parts-Signs}
use warren_sdk_ts.Discovery.Multihop.{
  Directory, multihop_directory_version, read_directory, pubkey, certifies, some_root, roots_allow,
}

abbrev directory_keys : List String
directory_keys =
    "version" ∷ "nodes" ∷ "generation" ∷ "signed_at" ∷ "expires_at" ∷ "operational_pubkey_hex"
    ∷ "operational_cert_hex" ∷ "server_pubkey_hex" ∷ "signature_hex" ∷ []

module _ (p : Platform) where
  -- The parsed text is an object of these fields and no other, of version 2.
  pub record IsDirectory (parsed : Json) (d : Directory) : Type 0 where
    pub top : List (String × Json)
    pub is_object : IsObject directory_keys parsed top
    pub version_number : HasNumber top "version" d.version
    pub version : d.version ≡ 2
    pub nodes : HasArray (validate_node p.lower) top "nodes" d.nodes
    pub generation : HasNumber top "generation" d.generation
    pub signed_at : HasNumber top "signed_at" d.signed_at
    pub expires_at : HasNumber top "expires_at" d.expires_at
    pub operational_pubkey_hex : HasString top "operational_pubkey_hex" d.operational_pubkey_hex
    pub operational_cert_hex : HasString top "operational_cert_hex" d.operational_cert_hex
    pub server_pubkey_hex : HasString top "server_pubkey_hex" d.server_pubkey_hex
    pub signature_hex : HasString top "signature_hex" d.signature_hex

  record Steps (parsed : Json) (d : Directory) : Type 0 where
    top : List (String × Json)
    raw : List Json
    is_object : as_object directory_keys [] (some parsed) ≡ some top
    version_number : as_u64 (property "version" top) ≡ some d.version
    version : (d.version == multihop_directory_version) ≡ true
    server_pubkey_hex : as_string (property "server_pubkey_hex" top) ≡ some d.server_pubkey_hex
    operational_pubkey_hex :
        as_string (property "operational_pubkey_hex" top) ≡ some d.operational_pubkey_hex
    operational_cert_hex :
        as_string (property "operational_cert_hex" top) ≡ some d.operational_cert_hex
    signature_hex : as_string (property "signature_hex" top) ≡ some d.signature_hex
    generation : as_u64 (property "generation" top) ≡ some d.generation
    signed_at : as_u64 (property "signed_at" top) ≡ some d.signed_at
    expires_at : as_u64 (property "expires_at" top) ≡ some d.expires_at
    raw_nodes : as_array (property "nodes" top) ≡ some raw
    nodes : each (validate_node p.lower) raw ≡ some d.nodes

  read_directory-Steps :
      (parsed : Json) (d : Directory) → read_directory p (some parsed) ≡ ok d → Steps parsed d
  unfolding read_directory
  read_directory-Steps parsed d h = ground arith

  pub read_directory-IsDirectory :
      (parsed : Json) (d : Directory) → read_directory p (some parsed) ≡ ok d → IsDirectory parsed d
  read_directory-IsDirectory parsed d h =
      let s = read_directory-Steps parsed d h in
      let num = as_u64-HasNumber s.top in
      let str = as_string-HasString s.top in
      record {
        top = s.top;
        is_object = as_object-IsObject directory_keys parsed s.top s.is_object;
        version_number = num "version" d.version s.version_number;
        version = (==_iff d.version 2).0 s.version;
        nodes =
            as_array-HasArray s.top "nodes" (validate_node p.lower) s.raw d.nodes s.raw_nodes
              s.nodes;
        generation = num "generation" d.generation s.generation;
        signed_at = num "signed_at" d.signed_at s.signed_at;
        expires_at = num "expires_at" d.expires_at s.expires_at;
        operational_pubkey_hex =
            str "operational_pubkey_hex" d.operational_pubkey_hex s.operational_pubkey_hex;
        operational_cert_hex =
            str "operational_cert_hex" d.operational_cert_hex s.operational_cert_hex;
        server_pubkey_hex = str "server_pubkey_hex" d.server_pubkey_hex s.server_pubkey_hex;
        signature_hex = str "signature_hex" d.signature_hex s.signature_hex;
      }

  -- A key in hex: 32 bytes that are a point of the curve.
  pub record IsKey (hex : String) (key : Bytes) : Type 0 where
    pub decodes : p.hex_to_bytes hex ≡ some key
    pub key_length : length key ≡ 32
    pub point : p.is_point key ≡ true

  pub pubkey-IsKey : (hex : String) (key : Bytes) → pubkey p hex ≡ ok key → IsKey hex key
  unfolding pubkey
  pubkey-IsKey hex key h = ground arith

  -- A root whose signature certifies the operational key.
  pub record IsRoot (operational : Bytes) (cert_hex root_hex : String) : Type 0 where
    pub root : Bytes
    pub is_key : IsKey root_hex root
    pub signs : Signs p root cert_hex root_operational_v1 (operational ∷ [])

  -- One of the roots certifies the operational key, when there are any.
  abbrev pub IsCertified : Bytes → String → List String → Type 0
  IsCertified operational cert_hex roots =
      (roots ≡ []) ⊎ ((root : String) × In root roots × IsRoot operational cert_hex root)

  certifies-IsRoot :
      (operational : Bytes) (cert_hex root : String) (c : Checked WarrenDirectoryErrorCode Bytes)
      → pubkey p root ≡ c
      → certifies p operational cert_hex c ≡ true
      → IsRoot operational cert_hex root
  certifies-IsRoot operational cert_hex root (ok key) e h = record {
    root = key;
    is_key = pubkey-IsKey root key e;
    signs = verify_parts-Signs p key cert_hex root_operational_v1 (operational ∷ []) h;
  }
  certifies-IsRoot operational cert_hex root (fail x) e h = absurd cc

  some_root-IsRoot :
      (operational : Bytes) (cert_hex : String) (roots : List String)
      → some_root p operational cert_hex roots ≡ true
      → (root : String) × In root roots × IsRoot operational cert_hex root
  unfolding some_root
  some_root-IsRoot operational cert_hex [] h = absurd cc
  some_root-IsRoot operational cert_hex (root ∷ roots) h =
      elim (Bool-cases (certifies p operational cert_hex (pubkey p root))) [
        | inl e ↦
            (root, inl refl, certifies-IsRoot operational cert_hex root (pubkey p root) refl e)
        | inr e ↦
            let (r, i, certified) =
              some_root-IsRoot operational cert_hex roots (rw (some_root, e) at h) in
            (r, inr i, certified)
      ]

  pub roots_allow-IsCertified :
      (operational : Bytes) (cert_hex : String) (roots : List String)
      → roots_allow p operational cert_hex roots ≡ true
      → IsCertified operational cert_hex roots
  roots_allow-IsCertified operational cert_hex [] h = inl refl
  roots_allow-IsCertified operational cert_hex (root ∷ roots) h =
      inr (some_root-IsRoot operational cert_hex (root ∷ roots) h)
