-- ===== src/Discovery/Multihop/Exits.antt =====
-- The exits of a verified directory, one by one.
use Prim.Native.String.{String}
use warren_sdk_ts.Prelude.{
  ◌+◌, ◌≡◌, ◌⊎◌, inl, inr, sym, ap, List, [], ◌∷◌, some, true, arith, length, In,
}
use warren_sdk_ts.Discovery.Json.{Json}
use warren_sdk_ts.Discovery.PqDescriptor.{dns_byte}
use warren_sdk_ts.Discovery.Platform.{Bytes, Platform, ok}
use warren_sdk_ts.Discovery.Multihop.Node.{CanonicalNode}
use warren_sdk_ts.Discovery.Multihop.Vouch.{NodeVouch, operational_exit_v2, or_false}
use warren_sdk_ts.Discovery.Multihop.Signatures.{
  Signs, BindsPq, SignsExit, by_pq, by_v2, by_v1, IsVouched,
}
use warren_sdk_ts.Discovery.Multihop.{
  VerifiedExit, VerifiedDirectory, Directory, exit_of, read_directory, verify_multihop_directory,
}
use warren_sdk_ts.Discovery.Fields.{IsPinned}
use warren_sdk_ts.Discovery.Multihop.Read.{IsDirectory, IsKey, IsCertified}
use warren_sdk_ts.Discovery.Multihop.Backed.{IsBacked, vouched_exits-IsBacked}
use warren_sdk_ts.Discovery.Multihop.Sound.{IsSealed, verify_multihop_directory-IsVerified}

-- The chain of trust of an exit: the server's key signs the directory, a root certifies its operational
-- key (where there are roots), and the operational key vouches for the exit's node.
pub record IsTrusted (p : Platform) (text : String) (pins roots : List String) (e : VerifiedExit)
    : Type 0 where
  pub parsed : Json
  pub directory : Directory
  pub operational : Bytes
  pub parses : p.parse text ≡ some parsed
  pub fields : IsDirectory p parsed directory
  pub pinned : IsPinned p.lower directory.server_pubkey_hex pins
  pub sealed : IsSealed p directory
  pub operational_key : IsKey p directory.operational_pubkey_hex operational
  pub certified : IsCertified p operational directory.operational_cert_hex roots
  pub backed : IsBacked p operational directory.nodes e

-- The operational key of the directory that a text is.
pub record IsOperational (p : Platform) (text : String) (operational : Bytes) : Type 0 where
  pub parsed : Json
  pub directory : Directory
  pub parses : p.parse text ≡ some parsed
  pub fields : IsDirectory p parsed directory
  pub key_hex : p.hex_to_bytes directory.operational_pubkey_hex ≡ some operational

-- An exit's ML-KEM key, signed together with its ids and its dns flag by the operational key.
pub record IsPqBound (p : Platform) (operational : Bytes) (e : VerifiedExit) (key_hex : String)
    : Type 0 where
  pub exit_id : Bytes
  pub exit_x : Bytes
  pub signature_hex : String
  pub exit_id_hex : p.hex_to_bytes e.exit_id_hex ≡ some exit_id
  pub exit_x_hex : p.hex_to_bytes e.exit_x25519_pubkey_hex ≡ some exit_x
  pub bound : BindsPq p operational exit_id exit_x e.dns_disabled key_hex signature_hex

-- An exit's dns flag, signed under `/v2` by the operational key.
pub record IsV2Bound (p : Platform) (operational : Bytes) (e : VerifiedExit) : Type 0 where
  pub exit_id : Bytes
  pub exit_x : Bytes
  pub signature_hex : String
  pub exit_id_hex : p.hex_to_bytes e.exit_id_hex ≡ some exit_id
  pub exit_x_hex : p.hex_to_bytes e.exit_x25519_pubkey_hex ≡ some exit_x
  pub bound :
      Signs p operational signature_hex operational_exit_v2
        (exit_id ∷ exit_x ∷ (dns_byte e.dns_disabled ∷ []) ∷ [])

module _ (p : Platform) (operational : Bytes) (n : CanonicalNode) (v : NodeVouch) where
  vouched-pq :
      (key_hex : String)
      → IsVouched p operational n v
      → v.exit_mlkem768_pubkey_hex ≡ some key_hex
      → IsPqBound p operational (exit_of n v) key_hex
  vouched-pq key_hex h e = go h.exit_signed
    where
      go :
          SignsExit p operational n h.exit_id h.exit_x (or_false n.exit.dns_disabled) v
          → IsPqBound p operational (exit_of n v) key_hex
      go (by_pq key listed bound shown) =
          let same : key ≡ key_hex = cc (e, ap (λ w. w.exit_mlkem768_pubkey_hex) shown) in
          let flag : v.dns_disabled ≡ or_false n.exit.dns_disabled =
            ap (λ w. w.dns_disabled) shown in
          record {
            exit_id = h.exit_id;
            exit_x = h.exit_x;
            signature_hex = n.exit.signature;
            exit_id_hex = h.exit_id_hex;
            exit_x_hex = h.exit_x_hex;
            bound = rw (flag, sym same) bound;
          }
      go (by_v2 bound shown) = absurd (let k = ap (λ w. w.exit_mlkem768_pubkey_hex) shown in cc)
      go (by_v1 bound off shown) = absurd (let k = ap (λ w. w.exit_mlkem768_pubkey_hex) shown in cc)

  vouched-dns :
      IsVouched p operational n v
      → v.dns_disabled ≡ true
      → IsV2Bound p operational (exit_of n v)
        ⊎ ((key_hex : String) × (v.exit_mlkem768_pubkey_hex ≡ some key_hex)
            × IsPqBound p operational (exit_of n v) key_hex)
  vouched-dns h e = go h.exit_signed
    where
      go :
          SignsExit p operational n h.exit_id h.exit_x (or_false n.exit.dns_disabled) v
          → IsV2Bound p operational (exit_of n v)
            ⊎ ((key_hex : String) × (v.exit_mlkem768_pubkey_hex ≡ some key_hex)
                × IsPqBound p operational (exit_of n v) key_hex)
      go (by_pq key listed bound shown) =
          let surfaced : v.exit_mlkem768_pubkey_hex ≡ some key =
            ap (λ w. w.exit_mlkem768_pubkey_hex) shown in
          inr (key, surfaced, vouched-pq key h surfaced)
      go (by_v2 bound shown) =
          let flag : v.dns_disabled ≡ or_false n.exit.dns_disabled =
            ap (λ w. w.dns_disabled) shown in
          inl (record {
            exit_id = h.exit_id;
            exit_x = h.exit_x;
            signature_hex = n.exit.signature;
            exit_id_hex = h.exit_id_hex;
            exit_x_hex = h.exit_x_hex;
            bound = rw flag bound;
          })
      go (by_v1 bound off shown) = absurd (let k = ap (λ w. w.dns_disabled) shown in cc)

module _ (p : Platform) (text : String) (pins roots : List String) (dir : VerifiedDirectory) where
  -- Every exit of a verified directory has a chain of trust: the envelope that lists its node is signed
  -- by the server's key, which is one of the pins when there are any; the operational key is certified
  -- by one of the roots when there are any; and it has signed the node's relay, the attestation that
  -- ties the exit's identity, network and country to that relay, and the exit's descriptor.
  pub verified_exit-IsTrusted :
      verify_multihop_directory p text pins roots ≡ ok dir
      → (e : VerifiedExit) → In e dir.exits
      → IsTrusted p text pins roots e
  verified_exit-IsTrusted h e i =
      let v = (verify_multihop_directory-IsVerified p text pins roots dir).0 h in
      record {
        parsed = v.parsed;
        directory = v.directory;
        operational = v.operational;
        parses = v.parses;
        fields = v.fields;
        pinned = v.pin;
        sealed = v.sealed;
        operational_key = v.operational_point;
        certified = v.certificate;
        backed =
            (vouched_exits-IsBacked p v.operational v.directory.nodes v.exits v.vouched).0 e
              (rw v.result at i);
      }

  -- The operational key of a verified directory, which backs every exit of it.
  exit_backed :
      verify_multihop_directory p text pins roots ≡ ok dir
      → (e : VerifiedExit) → In e dir.exits
      → (operational : Bytes) × (nodes : List CanonicalNode) × IsOperational p text operational
        × IsBacked p operational nodes e
  exit_backed h e i =
      let t = verified_exit-IsTrusted h e i in
      (
        t.operational,
        t.directory.nodes,
        record {
          parsed = t.parsed;
          directory = t.directory;
          parses = t.parses;
          fields = t.fields;
          key_hex = t.operational_key.decodes;
        },
        t.backed,
      )

  -- A verified directory shows an ML-KEM key only where the operational key that the directory names has
  -- signed it, together with the exit's id, its X25519 key and the dns flag that is shown: a key that a
  -- classical signature merely carried is never shown.
  pub verified_exit-IsPqBound :
      (e : VerifiedExit) (key_hex : String)
      → verify_multihop_directory p text pins roots ≡ ok dir
      → In e dir.exits
      → e.exit_mlkem768_pubkey_hex ≡ some key_hex
      → (operational : Bytes) × IsOperational p text operational × IsPqBound p operational e key_hex
  verified_exit-IsPqBound e key_hex h i shown =
      let (operational, nodes, named, b) = exit_backed h e i in
      (
        operational,
        named,
        rw b.shown
            (vouched-pq p operational b.node b.vouch key_hex b.vouched (rw b.shown at shown)),
      )

  -- An exit that a verified directory shows with its dns forwarder off is signed as such by the
  -- operational key that the directory names, under `/v2` or under the post-quantum context: the legacy
  -- `/v1` signature, which does not cover the flag, is not enough.
  pub verified_exit_dns :
      (e : VerifiedExit)
      → verify_multihop_directory p text pins roots ≡ ok dir
      → In e dir.exits
      → e.dns_disabled ≡ true
      → (operational : Bytes) × IsOperational p text operational
        × (IsV2Bound p operational e
            ⊎ ((key_hex : String) × (e.exit_mlkem768_pubkey_hex ≡ some key_hex)
                × IsPqBound p operational e key_hex))
  verified_exit_dns e h i off =
      let (operational, nodes, named, b) = exit_backed h e i in
      (
        operational,
        named,
        rw b.shown (vouched-dns p operational b.node b.vouch b.vouched (rw b.shown at off)),
      )

  -- The exits and the dropped nodes of a verified directory add up to the nodes of the text.
  pub verified_dropped :
      (parsed : Json) (d : Directory)
      → p.parse text ≡ some parsed
      → read_directory p (some parsed) ≡ ok d
      → verify_multihop_directory p text pins roots ≡ ok dir
      → dir.dropped + length dir.exits ≡ length d.nodes
  verified_dropped parsed d parses reads h =
      let v = (verify_multihop_directory-IsVerified p text pins roots dir).0 h in
      let same_json : v.parsed ≡ parsed = cc (v.parses, parses) in
      let same : v.directory ≡ d = cc (v.reads, reads, same_json) in
      let fewer = (vouched_exits-IsBacked p v.operational v.directory.nodes v.exits v.vouched).1 in
      rw v.result (rw (sym same) (omega (arith, fewer)))
