-- ===== src/Verification/Verify/Devices.antt =====
-- `verifyRelays` of src/verification/verification.service.ts with the service of
-- src/verification/hardware-verification.service.ts: why a relay is posted with proved hardware.
use operator_registry_contro.Prelude.{
  ◌<◌, ◌≡◌, refl, subst, true, Option, none, some, List, [], ◌∷◌, Text, text, ◌==◌, count, All,
  flatten, ok, Ensures-ok, inl, inr, ◌⊎◌,
}
use operator_registry_contro.Prelude.Numbers.{ℤ}
use operator_registry_contro.Validation.Dto.{RelayDataDto, RelayHardwareInfo}
use operator_registry_contro.Verification.Dto.{KnownDevice, VerificationResultDto}
use operator_registry_contro.Verification.Claimable.Reasons.{IsAdmissible, asked, asked-IsQuiet}
use operator_registry_contro.Verification.Hardware.Cases.{Evidence, owned_nft, known_device}
use operator_registry_contro.Verification.Hardware.Proof.{HardwareVerificationService}
use operator_registry_contro.Verification.Hardware.Soundness.{is_hardware_proof_valid-true}
use operator_registry_contro.Verification.Hardware.Quiet.{hardware_service}
use operator_registry_contro.OperatorRegistry.{Property, RelayWithHardwareProof, certificate}
use operator_registry_contro.World.{World, IsQuiet}
use operator_registry_contro.Verification.Verify.{VerificationService, property, verify_relays}
use operator_registry_contro.Verification.Verify.Submits.{Posted}
use operator_registry_contro.Verification.Verify.Outcomes.{
  IsSafelyPosted, verify_relays-IsSafelyPosted,
}

module _ {E : Type 0} (h : HardwareVerificationService E) where
  -- The certificate that is posted for the relay does not say that its hardware is proved, or there is
  -- evidence for it, with the known devices of the state `w`.
  abbrev pub HasEvidence : World E → RelayWithHardwareProof → Type 0
  HasEvidence w r =
      ((certificate r).hw ≡ none)
      ⊎ ((info : RelayHardwareInfo) × (r.relay.hardware_info ≡ some info)
          × (n : ℤ) × Evidence h r.relay info w n)

  -- The evidence only looks at the known devices.
  Evidence-earlier :
      {w v : World E} {relay : RelayDataDto} {info : RelayHardwareInfo} {n : ℤ}
      → IsQuiet w v
      → Evidence h relay info v n
      → Evidence h relay info w n
  Evidence-earlier quiet (owned_nft nft_id named is_number parsed confirmed) =
      owned_nft nft_id named is_number parsed confirmed
  Evidence-earlier quiet (known_device atec_serial serial known proved) =
      known_device atec_serial serial
        (subst
          (λ (ds : List KnownDevice).
            0 < count (λ d. d.unique_id == h.to_lower_case atec_serial) ds)
          quiet.known_devices_eq known)
        proved

  module _ (x : VerificationService E) (same : x.hardware ≡ hardware_service h)
      (claimable verified : List Text) (table : Option Property) (w : World E) where
    valid-HasEvidence :
        (r : RelayWithHardwareProof) (v : World E)
        → IsQuiet w v
        → (x.hardware.is_hardware_proof_valid r.relay v).0 ≡ ok true
        → HasEvidence w r
    unfolding hardware_service
    valid-HasEvidence r v quiet valid =
        let (info, has, (n, evidence, t, complete, added, failures)) =
          is_hardware_proof_valid-true h r.relay v
            (subst (λ hw. (hw.is_hardware_proof_valid r.relay v).0 ≡ ok true) same valid) in
        inr (info, has, n, Evidence-earlier quiet evidence)

    unmarked-HasEvidence :
        (r : RelayWithHardwareProof) → r.is_hardware_proof_valid ≡ none → HasEvidence w r
    unfolding certificate
    unmarked-HasEvidence r unmarked = inl (rw unmarked refl)

    admissible-HasEvidence :
        (r : RelayWithHardwareProof)
        → IsAdmissible x.hardware claimable verified table w r
        → HasEvidence w r
    admissible-HasEvidence r a = elim (a.proof) [
      | inl (unmarked, no_info) ↦ unmarked-HasEvidence r unmarked
      | inr (inl (unmarked, known)) ↦ unmarked-HasEvidence r unmarked
      | inr (inr (marked, p)) ↦
          valid-HasEvidence r (asked x.hardware claimable verified table w r.relay p.examined)
            (asked-IsQuiet x.hardware claimable verified table w r.relay p.examined) p.valid
    ]

    chunk-HasEvidence :
        (rs : List RelayWithHardwareProof)
        → All (IsAdmissible x.hardware claimable verified table w) rs
        → All (HasEvidence w) rs
    chunk-HasEvidence [] a = tt
    chunk-HasEvidence (r ∷ rs) (a, more) = (admissible-HasEvidence r a, chunk-HasEvidence rs more)

  -- If the verification of relays returns, in a service whose hardware checks are those of
  -- the service of hardware verification and which has a signer, then it posted certificates for chunks of
  -- relays, and for each of them the certificate does not say that the hardware is proved, or there is
  -- evidence for it: a contract named its address as the owner of the token that its hardware information
  -- names, or its ATEC serial was that of a device known when the run began and its serial proof verified.
  pub verify_relays-HasEvidence :
      (x : VerificationService E) (fingerprints : List Text) (w : World E)
      (results : List VerificationResultDto)
      → x.hardware ≡ hardware_service h
      → x.registry.has_signer ≡ true
      → (verify_relays x fingerprints w).0 ≡ ok results
      → (chunks : List (List RelayWithHardwareProof)) × Posted x.registry chunks w.sent
          (verify_relays x fingerprints w).1.sent
        × All (HasEvidence w) (flatten chunks)
  verify_relays-HasEvidence x fingerprints w results same signer returned =
      let s : IsSafelyPosted x signer fingerprints w (verify_relays x fingerprints w).1 =
        Ensures-ok (λ results v. IsSafelyPosted x signer fingerprints w v) (λ v. v.sent ≡ w.sent)
          (verify_relays x fingerprints w).0 (verify_relays x fingerprints w).1
          (verify_relays-IsSafelyPosted x signer fingerprints w) returned in
      (
        s.chunks,
        s.posted,
        chunk-HasEvidence x same s.claimable s.verified
            (property (text "VerifiedHardwareFingerprints") s.state) w (flatten s.chunks)
            s.admissible,
      )
