-- ===== src/Discovery/PqDescriptor/Negotiation.antt =====
-- When the post-quantum seal is used.
use warren_sdk_ts.Prelude.{◌≡◌, ◌↔◌, ◌⊎◌, inl, inr, refl, some, true, false, arith, length, Bool}
use warren_sdk_ts.Discovery.Platform.{Bytes, Platform, Checked, ok, fail}
use warren_sdk_ts.Discovery.PqDescriptor.{
  WarrenPqErrorCode, ExitDescriptorPq, PqAvailability, available, classical_fallback,
  mlkem768_encaps_key_len, payload_pq, exit_descriptor_signing_payload_pq,
  verify_exit_descriptor_pq, negotiated, negotiate_pq,
}

-- A descriptor with a key of the right length that the operational key has signed.
pub record IsBound (p : Platform) (operational : Bytes) (d : ExitDescriptorPq) : Type 0 where
  pub key : Bytes
  pub advertised : d.exit_mlkem768_pubkey ≡ some key
  pub key_length : length key ≡ mlkem768_encaps_key_len
  pub operational_length : length operational ≡ 32
  pub signature_length : length d.signature ≡ 64
  pub exit_id_length : length d.exit_id ≡ 16
  pub x25519_length : length d.exit_x25519_multihop_pubkey ≡ 32
  pub verifies :
      p.ed25519_verify d.signature
        (payload_pq p d.exit_id d.exit_x25519_multihop_pubkey d.dns_disabled key)
        operational
      ≡ some true

module _ (p : Platform) (operational : Bytes) (d : ExitDescriptorPq) where
  verified-IsBound : verify_exit_descriptor_pq p operational d ≡ ok tt → IsBound p operational d
  unfolding verify_exit_descriptor_pq exit_descriptor_signing_payload_pq
  verified-IsBound h = ground arith

  IsBound-verified : IsBound p operational d → verify_exit_descriptor_pq p operational d ≡ ok tt
  unfolding verify_exit_descriptor_pq exit_descriptor_signing_payload_pq
  IsBound-verified b = ground arith

  outcome :
      (require_pq : Bool) (a : PqAvailability)
      → negotiate_pq p operational d require_pq ≡ ok a
      → ((a ≡ available) × (verify_exit_descriptor_pq p operational d ≡ ok tt))
        ⊎ ((a ≡ classical_fallback) × (require_pq ≡ false))
  unfolding negotiate_pq
  outcome require_pq a h = go (verify_exit_descriptor_pq p operational d) refl h
    where
      go :
          (c : Checked WarrenPqErrorCode (Unit {0}))
          → verify_exit_descriptor_pq p operational d ≡ c
          → negotiated require_pq c ≡ ok a
          → ((a ≡ available) × (verify_exit_descriptor_pq p operational d ≡ ok tt))
            ⊎ ((a ≡ classical_fallback) × (require_pq ≡ false))
      go (ok u) e h = inl (cc, e)
      go (fail x) e h = ground arith

  -- The post-quantum seal is used exactly where the descriptor carries an ML-KEM key of the right length
  -- that the operational key has signed, with the ids and the dns flag, whether or not the caller
  -- requires it.
  pub negotiate_pq-IsBound :
      (require_pq : Bool)
      → (negotiate_pq p operational d require_pq ≡ ok available) ↔ IsBound p operational d
  unfolding negotiate_pq
  negotiate_pq-IsBound require_pq = (
    λ h. elim (outcome require_pq available h) [
      | inl (_, e) ↦ verified-IsBound e
      | inr (e, _) ↦ absurd cc
    ],
    λ b. rw (IsBound-verified b) refl,
  )

  -- A caller that requires it never falls back: what is negotiated then is the post-quantum seal, for a
  -- descriptor that is signed.
  pub negotiate_pq_required :
      (a : PqAvailability)
      → negotiate_pq p operational d true ≡ ok a
      → (a ≡ available) × IsBound p operational d
  negotiate_pq_required a h = elim (outcome true a h) [
    | inl (e, verified) ↦ (e, verified-IsBound verified)
    | inr (_, e) ↦ absurd cc
  ]
