-- ===== src/Verification/Hardware/Cases.antt =====
-- The two cases of `isHardwareProofValid` of src/verification/hardware-verification.service.ts that accept a
-- relay: what they rely on, and the document that they add.
pub mod OwnedToken
pub mod KnownDevices
use operator_registry_contro.Prelude.{
  ℕ, ◌<◌, ◌≡◌, refl, inl, inr, Bool, true, false, continue, Option, none, some, [], ◌∷◌, ◌++◌, Text,
  text, ◌==◌, is_empty, Bool-cases, if◌then◌else◌, count, Result, ok, err, pure, Ensures,
  Ensures-continue, Ensures-weaken,
}
use operator_registry_contro.Prelude.Numbers.{ℤ, pos}
use operator_registry_contro.Validation.Dto.{RelayDataDto, RelayHardwareInfo}
use operator_registry_contro.Verification.Claimable.{number_of_type}
use operator_registry_contro.Verification.Dto.{KnownDevice}
use operator_registry_contro.Verification.Hardware.Owner.{
  is_owner_of_relayup_nft, owned, parse_nft_id, validate_nft_id_for_address_and_device_serial,
}
use operator_registry_contro.Verification.Hardware.Ownership.{
  IsConfirmed, Answered, is_owner_of_relayup_nft-Answers,
}
use operator_registry_contro.Verification.Hardware.SerialProof.{verify_relay_serial_proof}
use operator_registry_contro.Verification.Hardware.Documents.{
  Draft, is_complete, to_document, to_draft, to_serial_proof,
}
use operator_registry_contro.Verification.Hardware.Proof.{
  HardwareVerificationService, has_nft_id, create_verified_hardware, accept, accept_nft, by_nft_id,
  by_serial_proof, by_known_device, prove, find_known_device,
}
use operator_registry_contro.World.{World, Error, as_error, Ensures-as_error}

module _ {E : Type 0} (x : HardwareVerificationService E) where
  -- Why the number of a token may be stored with the hardware of a relay.
  pub data Evidence (relay : RelayDataDto) (info : RelayHardwareInfo) (w : World E)
      : ℤ → Type 0 where
    owned_nft :
        {n : ℤ} (nft_id : Text)
        → info.nftid ≡ some nft_id
        → has_nft_id (some nft_id) ≡ true
        → parse_nft_id x.nft_contracts nft_id ≡ some n
        → IsConfirmed x.nft_contracts relay.any1_address n
        → Evidence relay info w n
    known_device :
        (atec_serial : Text)
        → number_of_type (text "ATEC") info.ser_nums ≡ some atec_serial
        → 0 < count (λ d. d.unique_id == x.to_lower_case atec_serial) w.known_devices
        → verify_relay_serial_proof x.crypto (to_serial_proof relay info atec_serial) ≡ ok true
        → Evidence relay info w (pos 0)

  -- The two collections of hardware are as they were.
  abbrev pub IsUntouched : World E → World E → Type 0
  IsUntouched w s =
      (s.verified_hardware ≡ w.verified_hardware)
      × (s.hardware_failures ≡ w.hardware_failures)
      × (s.known_devices ≡ w.known_devices)

  -- One complete document was added, for which there is evidence.
  abbrev pub IsAccepted : RelayDataDto → RelayHardwareInfo → World E → World E → Type 0
  IsAccepted relay info w s =
      (n : ℤ) × Evidence relay info w n
      × (t : ℕ) × (is_complete (to_draft relay info n t) ≡ true)
      × (s.verified_hardware ≡ w.verified_hardware ++ to_document (to_draft relay info n t) ∷ [])
      × (s.hardware_failures ≡ w.hardware_failures)

  abbrev pub Proved : RelayDataDto → RelayHardwareInfo → World E → Bool → World E → Type 0
  Proved relay info w true s = IsAccepted relay info w s
  Proved relay info w false s = IsUntouched w s

  abbrev pub Unknown : World E → Type 0
  Unknown s = Unit {0}

  create_verified_hardware-adds :
      (draft : Draft) (w : World E)
      → Ensures
          (λ u s.
            (is_complete draft ≡ true)
            × (s.verified_hardware ≡ w.verified_hardware ++ to_document draft ∷ [])
            × (s.hardware_failures ≡ w.hardware_failures))
          Unknown
          (create_verified_hardware x draft w).0
          (create_verified_hardware x draft w).1
  unfolding create_verified_hardware
  create_verified_hardware-adds draft w = elim (Bool-cases (is_complete draft)) [
    | inl complete ↦ rw complete (
        Ensures-as_error
          (λ (u : Unit {0}) (s : World E).
            (true ≡ true)
            × (s.verified_hardware ≡ w.verified_hardware ++ to_document draft ∷ [])
            × (s.hardware_failures ≡ w.hardware_failures))
          Unknown (x.verified_hardware_model.create (to_document draft) w.verified_hardware w.env).0
          (record w {
            env =
                (x.verified_hardware_model.create (to_document draft) w.verified_hardware w.env).1;
            verified_hardware =
                (x.verified_hardware_model.create (to_document draft) w.verified_hardware w.env).2;
          })
          (λ u done. (
            refl,
            x.verified_hardware_model.create_lem (to_document draft) w.verified_hardware w.env done,
            refl,
          ))
          tt)
    | inr missing ↦ rw missing tt
  ]

  pub accept-IsAccepted :
      (relay : RelayDataDto) (info : RelayHardwareInfo) (n : ℤ) (v : World E) (e : E)
      → Evidence relay info v n
      → Ensures
          (Proved relay info v)
          Unknown
          (accept x relay info n (record v { env = e })).0
          (accept x relay info n (record v { env = e })).1
  unfolding accept
  accept-IsAccepted relay info n v e evidence =
      let (t, later) = x.now e in
      Ensures-continue
        (λ u s.
          (is_complete (to_draft relay info n t) ≡ true)
          × (s.verified_hardware
              ≡ v.verified_hardware ++ to_document (to_draft relay info n t) ∷ [])
          × (s.hardware_failures ≡ v.hardware_failures))
        (Proved relay info v) Unknown
        (create_verified_hardware x (to_draft relay info n t) (record v { env = later })).0
        (λ u. pure true)
        (create_verified_hardware x (to_draft relay info n t) (record v { env = later })).1
        (create_verified_hardware-adds (to_draft relay info n t) (record v { env = later }))
        (λ u s (complete, added, same). (n, evidence, t, complete, added, same))
