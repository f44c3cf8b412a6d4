-- ===== src/Verification/Hardware/Soundness.antt =====
-- What `isHardwareProofValid` of src/verification/hardware-verification.service.ts relies on for its answer,
-- and what it leaves in the database.
use operator_registry_contro.Prelude.{
  ℕ, ◌≡◌, refl, ◌∙◌, ap, inl, inr, Bool, true, false, ◌&&◌, Option, none, some, [], ◌∷◌, ◌++◌,
  Bool-cases, ok, pure, Ensures, Ensures-continue, Ensures-ok, Ensures-map,
}
use operator_registry_contro.Validation.Dto.{RelayDataDto, RelayHardwareInfo}
use operator_registry_contro.Verification.Dto.{HardwareVerificationFailure}
use operator_registry_contro.Verification.Hardware.Documents.{is_given, to_failure}
use operator_registry_contro.Verification.Hardware.Proof.{
  HardwareVerificationService, create_failure, prove, record_failure, is_hardware_proof_valid,
}
use operator_registry_contro.World.{World, Ensures-as_error}
use operator_registry_contro.Verification.Hardware.Cases.{IsUntouched, IsAccepted, Proved}
use operator_registry_contro.Verification.Hardware.Cases.KnownDevices.{prove_info-Proved}

module _ {E : Type 0} (x : HardwareVerificationService E) where
  abbrev Unknown : World E → Type 0
  Unknown s = Unit {0}

  -- What a run of `isHardwareProofValid` that returns leaves.
  abbrev pub Verified : RelayDataDto → World E → Bool → World E → Type 0
  Verified relay w true s =
      (info : RelayHardwareInfo) × (relay.hardware_info ≡ some info) × IsAccepted x relay info w s
  Verified relay w false s =
      (s.verified_hardware ≡ w.verified_hardware)
      × (t : ℕ) × (s.hardware_failures ≡ w.hardware_failures ++ to_failure relay t ∷ [])

  abbrev Concluded : RelayDataDto → World E → Bool → World E → Type 0
  Concluded relay w true s =
      (info : RelayHardwareInfo) × (relay.hardware_info ≡ some info) × IsAccepted x relay info w s
  Concluded relay w false s = IsUntouched x w s

  Proved-Concluded :
      (relay : RelayDataDto) (v : World E) (info : RelayHardwareInfo)
      → relay.hardware_info ≡ some info
      → (b : Bool) (s : World E) → Proved x relay info v b s
      → Concluded relay v b s
  Proved-Concluded relay v info given true s accepted = (info, given, accepted)
  Proved-Concluded relay v info given false s untouched = untouched

  prove-Concluded :
      (relay : RelayDataDto) (v : World E) (info : Option RelayHardwareInfo)
      → relay.hardware_info ≡ info
      → Ensures (Concluded relay v) Unknown (prove x relay info v).0 (prove x relay info v).1
  unfolding prove
  prove-Concluded relay v none given = (refl, refl, refl)
  prove-Concluded relay v (some info) given =
      Ensures-map (Proved x relay info v) (Concluded relay v) Unknown
        (prove x relay (some info) v).0 (prove x relay (some info) v).1
        (prove_info-Proved x relay info v) (Proved-Concluded relay v info given)

  create_failure-adds :
      (failure : HardwareVerificationFailure) (w : World E)
      → Ensures
          (λ (u : Unit {0}) (s : World E).
            (s.verified_hardware ≡ w.verified_hardware)
            × (s.hardware_failures ≡ w.hardware_failures ++ failure ∷ []))
          Unknown
          (create_failure x failure w).0
          (create_failure x failure w).1
  unfolding create_failure
  create_failure-adds failure w =
      elim (Bool-cases (is_given (some failure.fingerprint) && is_given (some failure.address))) [
        | inl complete ↦ rw complete (
            Ensures-as_error
              (λ (u : Unit {0}) (s : World E).
                (s.verified_hardware ≡ w.verified_hardware)
                × (s.hardware_failures ≡ w.hardware_failures ++ failure ∷ []))
              Unknown
              (x.hardware_verification_failure_model.create failure w.hardware_failures w.env).0
              (record w {
                env =
                    (x.hardware_verification_failure_model.create failure w.hardware_failures
                      w.env).1;
                hardware_failures =
                    (x.hardware_verification_failure_model.create failure w.hardware_failures
                      w.env).2;
              })
              (λ u done. (
                refl,
                x.hardware_verification_failure_model.create_lem failure w.hardware_failures w.env
                    done,
              ))
              tt)
        | inr missing ↦ rw missing tt
      ]

  record_failure-Verified :
      (relay : RelayDataDto) (w : World E) (b : Bool) (s : World E)
      → Concluded relay w b s
      → Ensures
          (Verified relay w)
          Unknown
          (record_failure x relay b s).0
          (record_failure x relay b s).1
  unfolding record_failure
  record_failure-Verified relay w true s accepted = accepted
  record_failure-Verified relay w false s (hardware, failures, devices) =
      let (t, later) = x.now s.env in
      Ensures-continue
        (λ (u : Unit {0}) (v : World E).
          (v.verified_hardware ≡ s.verified_hardware)
          × (v.hardware_failures ≡ s.hardware_failures ++ to_failure relay t ∷ []))
        (Verified relay w) Unknown
        (create_failure x (to_failure relay t) (record s { env = later })).0 (λ u. pure false)
        (create_failure x (to_failure relay t) (record s { env = later })).1
        (create_failure-adds (to_failure relay t) (record s { env = later }))
        (λ u v (same, added).
          (same ∙ hardware, t, added ∙ ap (λ fs. fs ++ to_failure relay t ∷ []) failures))

  is_hardware_proof_valid-Verified :
      (relay : RelayDataDto) (w : World E)
      → Ensures
          (Verified relay w)
          Unknown
          (is_hardware_proof_valid x relay w).0
          (is_hardware_proof_valid x relay w).1
  unfolding is_hardware_proof_valid
  is_hardware_proof_valid-Verified relay w =
      Ensures-continue (Concluded relay w) (Verified relay w) Unknown
        (prove x relay relay.hardware_info w).0 (record_failure x relay)
        (prove x relay relay.hardware_info w).1 (prove-Concluded relay w relay.hardware_info refl)
        (record_failure-Verified relay w)

  -- If the check of a hardware proof returns true, then the relay has hardware information, and either
  -- it names a token other than "0", whose number parses and of which a contract named the relay's
  -- address as the owner, or its ATEC serial is the unique id of a known device and its serial proof
  -- verifies with the number 0. The check then added exactly one document of verified hardware, at the
  -- end, which has every required field and that number, and it recorded no failure.
  pub is_hardware_proof_valid-true :
      (relay : RelayDataDto) (w : World E)
      → (is_hardware_proof_valid x relay w).0 ≡ ok true
      → (info : RelayHardwareInfo) × (relay.hardware_info ≡ some info)
        × IsAccepted x relay info w (is_hardware_proof_valid x relay w).1
  is_hardware_proof_valid-true relay w valid =
      Ensures-ok (Verified relay w) Unknown (is_hardware_proof_valid x relay w).0
        (is_hardware_proof_valid x relay w).1 (is_hardware_proof_valid-Verified relay w) valid

  -- If the check of a hardware proof returns false, then the verified hardware is as it was, and exactly
  -- one failure was recorded, at the end: it has the relay's fingerprint, address and hardware
  -- information.
  pub is_hardware_proof_valid-false :
      (relay : RelayDataDto) (w : World E)
      → (is_hardware_proof_valid x relay w).0 ≡ ok false
      → ((is_hardware_proof_valid x relay w).1.verified_hardware ≡ w.verified_hardware)
        × (t : ℕ) × ((is_hardware_proof_valid x relay w).1.hardware_failures
            ≡ w.hardware_failures ++ to_failure relay t ∷ [])
  is_hardware_proof_valid-false relay w invalid =
      Ensures-ok (Verified relay w) Unknown (is_hardware_proof_valid x relay w).0
        (is_hardware_proof_valid x relay w).1 (is_hardware_proof_valid-Verified relay w) invalid
