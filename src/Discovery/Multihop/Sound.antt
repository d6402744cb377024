-- ===== src/Discovery/Multihop/Sound.antt =====
-- When a multi-hop directory is verified, and what its exits are signed for.
use Prim.Native.String.{String}
use warren_sdk_ts.Prelude.{
  ◌+◌, ◌≤◌, ◌≡◌, ◌↔◌, inl, inr, refl, List, some, true, false, arith, length, In, Bool,
  Option-cases,
}
use warren_sdk_ts.Discovery.Json.{Json}
use warren_sdk_ts.Discovery.Fields.{IsPinned}
use warren_sdk_ts.Discovery.Verify.Read.{pins_allow-IsPinned}
use warren_sdk_ts.Discovery.Multihop.Backed.{IsBacked, vouched_exits-IsBacked}
use warren_sdk_ts.Discovery.Multihop.Read.{
  IsDirectory, read_directory-IsDirectory, IsKey, pubkey-IsKey, IsCertified,
  roots_allow-IsCertified,
}
use warren_sdk_ts.Discovery.Platform.{Bytes, Platform, Checked, ok, fail, ◌>>=◌, ◌>>◌, require}
use warren_sdk_ts.Discovery.Verify.{max_validity_secs, pins_allow}
use warren_sdk_ts.Discovery.Multihop.Vouch.{WarrenDirectoryErrorCode, bad_operational_cert}
use warren_sdk_ts.Discovery.Multihop.{
  VerifiedExit, VerifiedDirectory, Directory, envelope_json, read_directory, pubkey, sig64,
  check_envelope, roots_allow, vouched_exits, directory_of, verify_multihop_directory,
}

-- The server's signature over the envelope of a directory.
pub record IsSealed (p : Platform) (d : Directory) : Type 0 where
  pub key : Bytes
  pub signature : Bytes
  pub key_hex : p.hex_to_bytes d.server_pubkey_hex ≡ some key
  pub key_length : length key ≡ 32
  pub key_point : p.is_point key ≡ true
  pub signature_hex : p.hex_to_bytes d.signature_hex ≡ some signature
  pub signature_length : length signature ≡ 64
  pub verifies : p.ed25519_verify signature (p.utf8 (p.stringify (envelope_json d))) key ≡ some true

module _ (p : Platform) (d : Directory) (pins : List String) where
  check_envelope-passed :
      check_envelope p d pins ≡ ok tt
      → (pins_allow p.lower d.server_pubkey_hex pins ≡ true)
        × IsSealed p d
        × (d.expires_at ≤ d.signed_at + max_validity_secs)
  unfolding check_envelope pubkey sig64
  check_envelope-passed h = ground arith

  check_envelope-passes :
      pins_allow p.lower d.server_pubkey_hex pins ≡ true
      → IsSealed p d
      → d.expires_at ≤ d.signed_at + max_validity_secs
      → check_envelope p d pins ≡ ok tt
  unfolding check_envelope pubkey sig64
  check_envelope-passes pinned s fresh = ground arith

-- What it takes for a directory to be verified as `out`.
pub record IsVerified (p : Platform) (text : String) (pins roots : List String)
    (out : VerifiedDirectory) : Type 0 where
  pub parsed : Json
  pub directory : Directory
  pub operational : Bytes
  pub exits : List VerifiedExit
  pub parses : p.parse text ≡ some parsed
  pub reads : read_directory p (some parsed) ≡ ok directory
  pub fields : IsDirectory p parsed directory
  pub pinned : pins_allow p.lower directory.server_pubkey_hex pins ≡ true
  pub pin : IsPinned p.lower directory.server_pubkey_hex pins
  pub sealed : IsSealed p directory
  pub within_validity : directory.expires_at ≤ directory.signed_at + 604800
  pub operational_key : pubkey p directory.operational_pubkey_hex ≡ ok operational
  pub operational_point : IsKey p directory.operational_pubkey_hex operational
  pub certified : roots_allow p operational directory.operational_cert_hex roots ≡ true
  pub certificate : IsCertified p operational directory.operational_cert_hex roots
  pub vouched : vouched_exits p operational directory.nodes ≡ ok exits
  pub backed : (e : VerifiedExit) → In e exits → IsBacked p operational directory.nodes e
  pub result : out ≡ directory_of p directory exits

module _ (p : Platform) (text : String) (pins roots : List String) (out : VerifiedDirectory) where
  answer-IsVerified :
      verify_multihop_directory p text pins roots ≡ ok out → IsVerified p text pins roots out
  unfolding verify_multihop_directory
  answer-IsVerified h = elim (Option-cases (p.parse text)) [
    | inl e ↦ absurd (let k = rw (verify_multihop_directory, e) at h in cc)
    | inr (parsed, e) ↦
        from_fields parsed e (read_directory p (some parsed)) refl
          (rw (verify_multihop_directory, e) at h)
  ]
    where
      from_operational :
          (parsed : Json) (d : Directory) (operational : Bytes)
          (xs : Checked WarrenDirectoryErrorCode (List VerifiedExit)) (b : Bool)
          → p.parse text ≡ some parsed
          → read_directory p (some parsed) ≡ ok d
          → check_envelope p d pins ≡ ok tt
          → pubkey p d.operational_pubkey_hex ≡ ok operational
          → roots_allow p operational d.operational_cert_hex roots ≡ b
          → vouched_exits p operational d.nodes ≡ xs
          → (require b bad_operational_cert >> (xs >>= λ exits. ok (directory_of p d exits)))
            ≡ ok out
          → IsVerified p text pins roots out
      from_operational parsed d operational (ok exits) true e reads checks key certified vouched k =
          let (pinned, sealed, within) = check_envelope-passed p d pins checks in
          record {
            parsed = parsed;
            directory = d;
            operational = operational;
            exits = exits;
            parses = e;
            reads = reads;
            fields = read_directory-IsDirectory p parsed d reads;
            pinned = pinned;
            pin = pins_allow-IsPinned p.lower d.server_pubkey_hex pins pinned;
            sealed = sealed;
            within_validity = within;
            operational_key = key;
            operational_point = pubkey-IsKey p d.operational_pubkey_hex operational key;
            certified = certified;
            certificate =
                roots_allow-IsCertified p operational d.operational_cert_hex roots certified;
            vouched = vouched;
            backed = (vouched_exits-IsBacked p operational d.nodes exits vouched).0;
            result = cc;
          }
      from_operational parsed d operational (fail x) true e reads checks key certified vouched k =
          absurd cc
      from_operational parsed d operational xs false e reads checks key certified vouched k =
          absurd cc

      from_checks :
          (parsed : Json) (d : Directory) (c : Checked WarrenDirectoryErrorCode (Unit {0}))
          (o : Checked WarrenDirectoryErrorCode Bytes)
          → p.parse text ≡ some parsed
          → read_directory p (some parsed) ≡ ok d
          → check_envelope p d pins ≡ c
          → pubkey p d.operational_pubkey_hex ≡ o
          → (c
              >> (o >>= λ operational.
                  require
                    (roots_allow p operational d.operational_cert_hex roots)
                    bad_operational_cert
                  >> (vouched_exits p operational d.nodes >>= λ exits.
                      ok (directory_of p d exits))))
            ≡ ok out
          → IsVerified p text pins roots out
      from_checks parsed d (ok tt) (ok operational) e reads checks key k =
          from_operational parsed d operational (vouched_exits p operational d.nodes)
            (roots_allow p operational d.operational_cert_hex roots) e reads checks key refl refl k
      from_checks parsed d (ok tt) (fail x) e reads checks key k = absurd cc
      from_checks parsed d (fail x) o e reads checks key k = absurd cc

      from_fields :
          (parsed : Json)
          → p.parse text ≡ some parsed
          → (c : Checked WarrenDirectoryErrorCode Directory) → read_directory p (some parsed) ≡ c
          → (c >>= λ d.
              check_envelope p d pins
              >> (pubkey p d.operational_pubkey_hex >>= λ operational.
                  require
                    (roots_allow p operational d.operational_cert_hex roots)
                    bad_operational_cert
                  >> (vouched_exits p operational d.nodes >>= λ exits.
                      ok (directory_of p d exits))))
            ≡ ok out
          → IsVerified p text pins roots out
      from_fields parsed e (ok d) reads k =
          from_checks parsed d (check_envelope p d pins) (pubkey p d.operational_pubkey_hex) e reads
            refl refl k
      from_fields parsed e (fail x) reads k = absurd cc

  IsVerified-verified :
      IsVerified p text pins roots out → verify_multihop_directory p text pins roots ≡ ok out
  unfolding verify_multihop_directory
  IsVerified-verified v = rw (
    v.parses,
    v.reads,
    check_envelope-passes p v.directory pins v.pinned v.sealed v.within_validity,
    v.operational_key,
    v.certified,
    v.vouched,
    v.result,
  )

  -- A multi-hop directory is verified exactly when it parses as a directory, its server key is one of the
  -- pins (when there are any), the envelope's signature verifies over the canonical text of its fields
  -- under that key, its validity is at most seven days, its operational key is a point that one of the
  -- roots certifies (when there are any), and no exception escapes from the nodes. It is then an object
  -- of the fields of a directory and no other, of version 2; the server key is a pin in lower case; a
  -- root among those given, a point too, has signed the operational key; and the result is made of the
  -- fields and of exits that the operational key vouches for.
  pub verify_multihop_directory-IsVerified :
      (verify_multihop_directory p text pins roots ≡ ok out) ↔ IsVerified p text pins roots out
  verify_multihop_directory-IsVerified = (answer-IsVerified, IsVerified-verified)
