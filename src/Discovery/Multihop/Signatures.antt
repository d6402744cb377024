-- ===== src/Discovery/Multihop/Signatures.antt =====
-- What a vouched node is signed for.
use Prim.Native.String.{String}
use warren_sdk_ts.Prelude.{
  ◌≡◌, inl, inr, List, [], ◌∷◌, ◌++◌, none, some, Bool, true, false, arith, length, Option-cases,
  Bool-cases,
}
use warren_sdk_ts.Discovery.Platform.{Bytes, Platform, ok}
use warren_sdk_ts.Discovery.PqDescriptor.{
  dns_byte, mlkem768_encaps_key_len, payload_pq, exit_descriptor_signing_payload_pq,
  verify_exit_descriptor_pq,
}
use warren_sdk_ts.Discovery.Multihop.Node.{CanonicalNode}
use warren_sdk_ts.Discovery.Multihop.Vouch.{
  NodeVouch, operational_exit_v1, operational_exit_v2, operational_relay_v1, operational_node_v1,
  concat_parts, asn_be, or_false, verify_parts, is_pq_bound, classical_vouch, exit_vouch,
  descriptor_vouch, attestation_vouch, vouch_node,
}

-- A signature in hex that verifies under `key` over a context and the parts behind it.
pub record Signs (p : Platform) (key : Bytes) (signature_hex context : String) (parts : List Bytes)
    : Type 0 where
  pub signature : Bytes
  pub decodes : p.hex_to_bytes signature_hex ≡ some signature
  pub signature_length : length signature ≡ 64
  pub verifies : p.ed25519_verify signature (p.utf8 context ++ concat_parts parts) key ≡ some true

-- The post-quantum descriptor verifies: the signature is over the key, the dns byte and the ids.
pub record BindsPq (p : Platform) (operational exit_id exit_x : Bytes) (dns_disabled : Bool)
    (key_hex signature_hex : String) : Type 0 where
  pub key : Bytes
  pub signature : Bytes
  pub key_decodes : p.hex_to_bytes key_hex ≡ some key
  pub signature_decodes : p.hex_to_bytes signature_hex ≡ some signature
  pub key_length : length key ≡ mlkem768_encaps_key_len
  pub signature_length : length signature ≡ 64
  pub verifies :
      p.ed25519_verify signature (payload_pq p exit_id exit_x dns_disabled key) operational
      ≡ some true

module _ (p : Platform) where
  pub verify_parts-Signs :
      (key : Bytes) (signature_hex context : String) (parts : List Bytes)
      → verify_parts p key signature_hex context parts ≡ true
      → Signs p key signature_hex context parts
  unfolding verify_parts
  verify_parts-Signs key signature_hex context parts h = ground arith

  is_pq_bound-BindsPq :
      (operational exit_id exit_x : Bytes) (dns_disabled : Bool) (key_hex signature_hex : String)
      → is_pq_bound p operational exit_id exit_x dns_disabled key_hex signature_hex ≡ true
      → BindsPq p operational exit_id exit_x dns_disabled key_hex signature_hex
  unfolding is_pq_bound verify_exit_descriptor_pq exit_descriptor_signing_payload_pq
  is_pq_bound-BindsPq operational exit_id exit_x dns_disabled key_hex signature_hex h = ground arith

-- How the operational key has signed an exit that is vouched as `v`.
pub data SignsExit (p : Platform) (operational : Bytes) (n : CanonicalNode) (exit_id exit_x : Bytes)
    (dns_disabled : Bool) (v : NodeVouch) : Type 0 where
  by_pq :
      (key_hex : String)
      → n.exit.exit_mlkem768_pubkey ≡ some key_hex
      → BindsPq p operational exit_id exit_x dns_disabled key_hex n.exit.signature
      → v ≡ record { dns_disabled = dns_disabled; exit_mlkem768_pubkey_hex = some key_hex }
      → SignsExit p operational n exit_id exit_x dns_disabled v
  by_v2 :
      Signs p operational n.exit.signature operational_exit_v2
        (exit_id ∷ exit_x ∷ (dns_byte dns_disabled ∷ []) ∷ [])
      → v ≡ record { dns_disabled = dns_disabled; exit_mlkem768_pubkey_hex = none }
      → SignsExit p operational n exit_id exit_x dns_disabled v
  by_v1 :
      Signs p operational n.exit.signature operational_exit_v1 (exit_id ∷ exit_x ∷ [])
      → dns_disabled ≡ false
      → v ≡ record { dns_disabled = false; exit_mlkem768_pubkey_hex = none }
      → SignsExit p operational n exit_id exit_x dns_disabled v

module _ (p : Platform) (operational : Bytes) (n : CanonicalNode) where
  classical_vouch-SignsExit :
      (exit_id exit_x : Bytes) (dns_disabled : Bool) (v : NodeVouch)
      → classical_vouch p operational n exit_id exit_x dns_disabled ≡ some v
      → SignsExit p operational n exit_id exit_x dns_disabled v
  unfolding classical_vouch
  classical_vouch-SignsExit exit_id exit_x dns_disabled v h =
      let v2 =
        verify_parts-Signs p operational n.exit.signature operational_exit_v2
          (exit_id ∷ exit_x ∷ (dns_byte dns_disabled ∷ []) ∷ []) in
      let v1 =
        verify_parts-Signs p operational n.exit.signature operational_exit_v1
          (exit_id ∷ exit_x ∷ []) in
      ground arith

  exit_vouch-SignsExit :
      (exit_id exit_x : Bytes) (dns_disabled : Bool) (v : NodeVouch)
      → exit_vouch p operational n exit_id exit_x dns_disabled ≡ some v
      → SignsExit p operational n exit_id exit_x dns_disabled v
  unfolding exit_vouch
  exit_vouch-SignsExit exit_id exit_x dns_disabled v h =
      elim (Option-cases n.exit.exit_mlkem768_pubkey) [
        | inl e ↦ classical_vouch-SignsExit exit_id exit_x dns_disabled v (rw (exit_vouch, e) at h)
        | inr (key, e) ↦
            elim (Bool-cases
              (is_pq_bound p operational exit_id exit_x dns_disabled key n.exit.signature)) [
                | inl b ↦
                    by_pq key e
                      (is_pq_bound-BindsPq p operational exit_id exit_x dns_disabled key
                        n.exit.signature b)
                      (let g = rw (exit_vouch, e, b) at h in cc)
                | inr b ↦
                    classical_vouch-SignsExit exit_id exit_x dns_disabled v
                      (rw (exit_vouch, e, b) at h)
              ]
      ]

  -- A node that the operational key has signed in full: its relay, the attestation that ties its exit's
  -- identity, network and country to the relay, and its exit.
  pub record IsVouched (v : NodeVouch) : Type 0 where
    pub relay_id : Bytes
    pub relay_key : Bytes
    pub identity : Bytes
    pub exit_id : Bytes
    pub exit_x : Bytes
    pub relay_id_hex : p.hex_to_bytes n.relay.relay_id ≡ some relay_id
    pub relay_key_hex : p.hex_to_bytes n.relay.relay_ed25519_pubkey ≡ some relay_key
    pub identity_hex : p.hex_to_bytes n.exit.exit_ed25519_pubkey ≡ some identity
    pub exit_id_hex : p.hex_to_bytes n.exit.exit_id ≡ some exit_id
    pub exit_x_hex : p.hex_to_bytes n.exit.exit_x25519_multihop_pubkey ≡ some exit_x
    pub relay_signed :
        Signs p operational n.relay.signature operational_relay_v1 (relay_id ∷ relay_key ∷ [])
    pub attested :
        Signs p operational n.attestation_hex operational_node_v1
          (relay_id ∷ identity ∷ asn_be n.asn ∷ p.utf8 n.country ∷ [])
    pub exit_signed : SignsExit p operational n exit_id exit_x (or_false n.exit.dns_disabled) v

  -- The steps of a node that is vouched.
  record Steps (v : NodeVouch) : Type 0 where
    relay_id : Bytes
    relay_key : Bytes
    identity : Bytes
    exit_id : Bytes
    exit_x : Bytes
    relay_id_hex : p.hex_to_bytes n.relay.relay_id ≡ some relay_id
    relay_key_hex : p.hex_to_bytes n.relay.relay_ed25519_pubkey ≡ some relay_key
    identity_hex : p.hex_to_bytes n.exit.exit_ed25519_pubkey ≡ some identity
    exit_id_hex : p.hex_to_bytes n.exit.exit_id ≡ some exit_id
    exit_x_hex : p.hex_to_bytes n.exit.exit_x25519_multihop_pubkey ≡ some exit_x
    relay_signed :
        verify_parts p operational n.relay.signature operational_relay_v1
          (relay_id ∷ relay_key ∷ [])
        ≡ true
    attested :
        verify_parts p operational n.attestation_hex operational_node_v1
          (relay_id ∷ identity ∷ asn_be n.asn ∷ p.utf8 n.country ∷ [])
        ≡ true
    exit_signed : exit_vouch p operational n exit_id exit_x (or_false n.exit.dns_disabled) ≡ some v

  vouch_node-Steps : (v : NodeVouch) → vouch_node p operational n ≡ ok (some v) → Steps v
  unfolding vouch_node attestation_vouch descriptor_vouch
  vouch_node-Steps v h = ground arith

  pub vouch_node-IsVouched :
      (v : NodeVouch) → vouch_node p operational n ≡ ok (some v) → IsVouched v
  vouch_node-IsVouched v h =
      let s = vouch_node-Steps v h in
      record {
        relay_id = s.relay_id;
        relay_key = s.relay_key;
        identity = s.identity;
        exit_id = s.exit_id;
        exit_x = s.exit_x;
        relay_id_hex = s.relay_id_hex;
        relay_key_hex = s.relay_key_hex;
        identity_hex = s.identity_hex;
        exit_id_hex = s.exit_id_hex;
        exit_x_hex = s.exit_x_hex;
        relay_signed = verify_parts-Signs p operational _ _ _ s.relay_signed;
        attested = verify_parts-Signs p operational _ _ _ s.attested;
        exit_signed = exit_vouch-SignsExit s.exit_id s.exit_x _ v s.exit_signed;
      }
