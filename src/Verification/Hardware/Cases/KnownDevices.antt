-- ===== src/Verification/Hardware/Cases/KnownDevices.antt =====
-- The third case of `isHardwareProofValid` of src/verification/hardware-verification.service.ts: a known
-- device, and the choice of the case.
use operator_registry_contro.Prelude.{
  ◌≡◌, refl, inl, inr, Bool, true, false, continue, Option, none, some, Text, text, ◌==◌,
  Bool-cases, if◌then◌else◌, Result, ok, err, pure, Ensures,
}
use operator_registry_contro.Prelude.Numbers.{pos}
use operator_registry_contro.Validation.Dto.{RelayDataDto, RelayHardwareInfo}
use operator_registry_contro.Verification.Claimable.{number_of_type}
use operator_registry_contro.Verification.Dto.{KnownDevice}
use operator_registry_contro.Verification.Hardware.SerialProof.{verify_relay_serial_proof}
use operator_registry_contro.Verification.Hardware.Documents.{to_serial_proof}
use operator_registry_contro.Verification.Hardware.Proof.{
  HardwareVerificationService, has_nft_id, accept, by_serial_proof, by_known_device, prove,
  find_known_device,
}
use operator_registry_contro.World.{World, Error, as_error}
use operator_registry_contro.Verification.Hardware.Cases.{
  Evidence, known_device, Proved, Unknown, accept-IsAccepted,
}
use operator_registry_contro.Verification.Hardware.Cases.OwnedToken.{by_nft_id-Proved}

module _ {E : Type 0} (x : HardwareVerificationService E) where
  after_proof-Proved :
      (relay : RelayDataDto) (info : RelayHardwareInfo) (v : World E) (e : E)
      (r : Result Error Bool)
      → (r ≡ ok true → Evidence x relay info v (pos 0))
      → Ensures
          (Proved x relay info v)
          (Unknown x)
          (continue r
            (λ b. if b then accept x relay info (pos 0) else pure false)
            (record v { env = e })).0
          (continue r
            (λ b. if b then accept x relay info (pos 0) else pure false)
            (record v { env = e })).1
  after_proof-Proved relay info v e (ok true) evidence =
      accept-IsAccepted x relay info (pos 0) v e (evidence refl)
  after_proof-Proved relay info v e (ok false) evidence = (refl, refl, refl)
  after_proof-Proved relay info v e (err error) evidence = tt

  abbrev listed : Text → KnownDevice → Bool
  listed atec_serial d = d.unique_id == x.to_lower_case atec_serial

  found-Proved :
      (relay : RelayDataDto) (info : RelayHardwareInfo) (v : World E) (e : E) (atec_serial : Text)
      (r : Result Text (Option KnownDevice))
      → number_of_type (text "ATEC") info.ser_nums ≡ some atec_serial
      → (x.known_device_model.find_one (listed atec_serial) v.known_devices v.env).0 ≡ r
      → Ensures
          (Proved x relay info v)
          (Unknown x)
          (continue
            (as_error r)
            (by_serial_proof x relay info atec_serial)
            (record v { env = e })).0
          (continue
            (as_error r)
            (by_serial_proof x relay info atec_serial)
            (record v { env = e })).1
  unfolding by_serial_proof
  found-Proved relay info v e atec_serial (ok (some device)) given found =
      after_proof-Proved relay info v e
        (verify_relay_serial_proof x.crypto (to_serial_proof relay info atec_serial))
        (λ verified.
          known_device atec_serial given
            ((x.known_device_model.find_one_some (listed atec_serial) v.known_devices v.env device
                found).1
              (listed atec_serial)
              (x.known_device_model.find_one_some (listed atec_serial) v.known_devices v.env device
                found).0)
            verified)
  found-Proved relay info v e atec_serial (ok none) given found = (refl, refl, refl)
  found-Proved relay info v e atec_serial (err message) given found = tt

  by_known_device-Proved :
      (relay : RelayDataDto) (info : RelayHardwareInfo) (v : World E) (serial : Option Text)
      → number_of_type (text "ATEC") info.ser_nums ≡ serial
      → Ensures
          (Proved x relay info v)
          (Unknown x)
          (by_known_device x relay info serial v).0
          (by_known_device x relay info serial v).1
  unfolding by_known_device find_known_device
  by_known_device-Proved relay info v none given = tt
  by_known_device-Proved relay info v (some atec_serial) given =
      found-Proved relay info v
        (x.known_device_model.find_one (listed atec_serial) v.known_devices v.env).1 atec_serial
        (x.known_device_model.find_one (listed atec_serial) v.known_devices v.env).0 given refl

  -- The case that the number of a token selects.
  pub prove_info-Proved :
      (relay : RelayDataDto) (info : RelayHardwareInfo) (v : World E)
      → Ensures
          (Proved x relay info v)
          (Unknown x)
          (prove x relay (some info) v).0
          (prove x relay (some info) v).1
  unfolding prove
  prove_info-Proved relay info v = elim (Bool-cases (has_nft_id info.nftid)) [
    | inl wanted ↦ rw wanted (by_nft_id-Proved x relay info v wanted)
    | inr other ↦
        rw other
          (by_known_device-Proved relay info v (number_of_type (text "ATEC") info.ser_nums) refl)
  ]
