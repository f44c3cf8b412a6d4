-- ===== src/Verification/Hardware/Quiet.antt =====
-- The checks of src/verification/hardware-verification.service.ts write to the collections of hardware only:
-- they are what src/verification/verification.service.ts takes from a service of hardware.
use operator_registry_contro.Prelude.{
  refl, inl, inr, Bool, true, false, ◌&&◌, Option, none, some, Text, text, ◌==◌, is_empty,
  Bool-cases, if◌then◌else◌, Result, ok, err, Action, pure, continue, ◌>>=◌,
}
use operator_registry_contro.Prelude.Numbers.{ℤ, pos}
use operator_registry_contro.Validation.Dto.{RelayDataDto, RelayHardwareInfo}
use operator_registry_contro.Verification.Claimable.{number_of_type}
use operator_registry_contro.Verification.Dto.{HardwareVerificationFailure, KnownDevice}
use operator_registry_contro.Verification.HardwareService.{HardwareService}
use operator_registry_contro.Verification.Hardware.Owner.{
  is_owner_of_relayup_nft, owned, parse_nft_id, validate_nft_id_for_address_and_device_serial,
}
use operator_registry_contro.Verification.Hardware.Ownership.{is_owner_of_relayup_nft-returns}
use operator_registry_contro.Verification.Hardware.SerialProof.{verify_relay_serial_proof}
use operator_registry_contro.Verification.Hardware.Documents.{
  Draft, is_given, is_complete, to_draft, to_serial_proof, to_failure,
}
use operator_registry_contro.Verification.Hardware.Proof.{
  HardwareVerificationService, has_nft_id, create_verified_hardware, create_failure, accept,
  accept_nft, by_nft_id, by_serial_proof, by_known_device, prove, record_failure,
  find_verified_hardware, find_known_device, get_verified_hardware_by_atec_serial,
  is_hardware_proof_valid,
}
use operator_registry_contro.World.{World, Error, read, IsQuiet, IsQuiet-refl, IsQuiet-trans}

moved-IsQuiet : {E : Type 0} (w : World E) (e : E) → IsQuiet w (record w { env = e })
moved-IsQuiet w e = record {
  sent_eq = refl;
  relay_infos_eq = refl;
  uploads_eq = refl;
  verifications_eq = refl;
  known_devices_eq = refl;
}

-- An action that is quiet from every state.
abbrev Quiet : {E A : Type 0} → Action (World E) Error A → Type 0
Quiet {E} m = (w : World E) → IsQuiet w (m w).1

continue-Quiet :
    {E A B : Type 0} (r : Result Error A) (f : A → Action (World E) Error B) (w s : World E)
    → IsQuiet w s
    → ((a : A) → Quiet (f a))
    → IsQuiet w (continue r f s).1
continue-Quiet (ok a) f w s before after = IsQuiet-trans before (after a s)
continue-Quiet (err error) f w s before after = before

bind-Quiet :
    {E A B : Type 0} (m : Action (World E) Error A) (f : A → Action (World E) Error B)
    → Quiet m
    → ((a : A) → Quiet (f a))
    → Quiet (m >>= f)
bind-Quiet m f before after w = continue-Quiet (m w).0 f w (m w).1 (before w) after

if-Quiet :
    {E A : Type 0} (b : Bool) (m n : Action (World E) Error A)
    → Quiet m
    → Quiet n
    → Quiet (if b then m else n)
if-Quiet true m n here there w = here w
if-Quiet false m n here there w = there w

module _ {E : Type 0} (x : HardwareVerificationService E) where
  create_verified_hardware-Quiet : (draft : Draft) → Quiet (create_verified_hardware x draft)
  unfolding create_verified_hardware
  create_verified_hardware-Quiet draft w = elim (Bool-cases (is_complete draft)) [
    | inl complete ↦ rw complete (
        (record {
          sent_eq = refl;
          relay_infos_eq = refl;
          uploads_eq = refl;
          verifications_eq = refl;
          known_devices_eq = refl;
        }))
    | inr missing ↦ rw missing (IsQuiet-refl w)
  ]

  create_failure-Quiet : (failure : HardwareVerificationFailure) → Quiet (create_failure x failure)
  unfolding create_failure
  create_failure-Quiet failure w =
      elim (Bool-cases (is_given (some failure.fingerprint) && is_given (some failure.address))) [
        | inl complete ↦ rw complete (
            (record {
              sent_eq = refl;
              relay_infos_eq = refl;
              uploads_eq = refl;
              verifications_eq = refl;
              known_devices_eq = refl;
            }))
        | inr missing ↦ rw missing (IsQuiet-refl w)
      ]

  pub accept-Quiet :
      (relay : RelayDataDto) (info : RelayHardwareInfo) (n : ℤ) → Quiet (accept x relay info n)
  unfolding accept
  accept-Quiet relay info n =
      bind-Quiet (read x.now)
        (λ t. create_verified_hardware x (to_draft relay info n t) >>= λ u. pure true)
        (λ w. moved-IsQuiet w (x.now w.env).1)
        (λ t.
          bind-Quiet (create_verified_hardware x (to_draft relay info n t)) (λ u. pure true)
            (create_verified_hardware-Quiet (to_draft relay info n t)) (λ u w. IsQuiet-refl w))

  accept_nft-Quiet :
      (relay : RelayDataDto) (info : RelayHardwareInfo) (validated : Option ℤ)
      → Quiet (accept_nft x relay info validated)
  unfolding accept_nft
  accept_nft-Quiet relay info none w = IsQuiet-refl w
  accept_nft-Quiet relay info (some n) w = accept-Quiet relay info n w

  is_owner_of_relayup_nft-Quiet :
      (address : Text) (n : ℤ) → Quiet (is_owner_of_relayup_nft x.nft_contracts address n)
  is_owner_of_relayup_nft-Quiet address n w =
      let (b, returned, (e, moved), verdict) =
        is_owner_of_relayup_nft-returns x.nft_contracts address n w in
      rw moved (moved-IsQuiet w e)

  owned-Quiet : (address : Text) (parsed : Option ℤ) → Quiet (owned x.nft_contracts address parsed)
  owned-Quiet address none = IsQuiet-refl
  owned-Quiet address (some n) =
      bind-Quiet (is_owner_of_relayup_nft x.nft_contracts address n)
        (λ is_owner. pure (if is_owner then some n else none))
        (is_owner_of_relayup_nft-Quiet address n) (λ is_owner w. IsQuiet-refl w)

  validate-Quiet :
      (address : Text) (nft_id : Option Text)
      → Quiet (validate_nft_id_for_address_and_device_serial x.nft_contracts address nft_id)
  unfolding validate_nft_id_for_address_and_device_serial
  validate-Quiet address none = IsQuiet-refl
  validate-Quiet address (some nft_id) =
      if-Quiet (is_empty nft_id) (pure none)
        (owned x.nft_contracts address (parse_nft_id x.nft_contracts nft_id)) (λ w. IsQuiet-refl w)
        (owned-Quiet address (parse_nft_id x.nft_contracts nft_id))

  find_known_device-Quiet : (p : KnownDevice → Bool) → Quiet (find_known_device x p)
  unfolding find_known_device
  find_known_device-Quiet p w =
      moved-IsQuiet w (x.known_device_model.find_one p w.known_devices w.env).1

  by_serial_proof-Quiet :
      (relay : RelayDataDto) (info : RelayHardwareInfo) (atec_serial : Text)
      (known : Option KnownDevice)
      → Quiet (by_serial_proof x relay info atec_serial known)
  unfolding by_serial_proof
  by_serial_proof-Quiet relay info atec_serial none w = IsQuiet-refl w
  by_serial_proof-Quiet relay info atec_serial (some device) w =
      continue-Quiet (verify_relay_serial_proof x.crypto (to_serial_proof relay info atec_serial))
        (λ b. if b then accept x relay info (pos 0) else pure false) w w (IsQuiet-refl w)
        (λ b.
          if-Quiet b (accept x relay info (pos 0)) (pure false) (accept-Quiet relay info (pos 0))
            (λ s. IsQuiet-refl s))

  by_known_device-Quiet :
      (relay : RelayDataDto) (info : RelayHardwareInfo) (serial : Option Text)
      → Quiet (by_known_device x relay info serial)
  unfolding by_known_device
  by_known_device-Quiet relay info none = IsQuiet-refl
  by_known_device-Quiet relay info (some atec_serial) =
      bind-Quiet (find_known_device x (λ d. d.unique_id == x.to_lower_case atec_serial))
        (by_serial_proof x relay info atec_serial)
        (find_known_device-Quiet (λ d. d.unique_id == x.to_lower_case atec_serial))
        (by_serial_proof-Quiet relay info atec_serial)

  by_nft_id-Quiet :
      (relay : RelayDataDto) (info : RelayHardwareInfo) → Quiet (by_nft_id x relay info)
  unfolding by_nft_id
  by_nft_id-Quiet relay info =
      bind-Quiet
        (validate_nft_id_for_address_and_device_serial x.nft_contracts relay.any1_address
          info.nftid)
        (accept_nft x relay info) (validate-Quiet relay.any1_address info.nftid)
        (accept_nft-Quiet relay info)

  prove-Quiet :
      (relay : RelayDataDto) (info : Option RelayHardwareInfo) → Quiet (prove x relay info)
  unfolding prove
  prove-Quiet relay none w = IsQuiet-refl w
  prove-Quiet relay (some info) w = elim (Bool-cases (has_nft_id info.nftid)) [
    | inl wanted ↦ rw wanted (by_nft_id-Quiet relay info w)
    | inr other ↦
        rw other (by_known_device-Quiet relay info (number_of_type (text "ATEC") info.ser_nums) w)
  ]

  record_failure-Quiet : (relay : RelayDataDto) (b : Bool) → Quiet (record_failure x relay b)
  unfolding record_failure
  record_failure-Quiet relay true = IsQuiet-refl
  record_failure-Quiet relay false =
      bind-Quiet (read x.now) (λ t. create_failure x (to_failure relay t) >>= λ u. pure false)
        (λ w. moved-IsQuiet w (x.now w.env).1)
        (λ t.
          bind-Quiet (create_failure x (to_failure relay t)) (λ u. pure false)
            (create_failure-Quiet (to_failure relay t)) (λ u w. IsQuiet-refl w))

  pub hardware_proof-Quiet : (relay : RelayDataDto) → Quiet (is_hardware_proof_valid x relay)
  unfolding is_hardware_proof_valid
  hardware_proof-Quiet relay =
      bind-Quiet (prove x relay relay.hardware_info) (record_failure x relay)
        (prove-Quiet relay relay.hardware_info) (record_failure-Quiet relay)

  pub verified_hardware-Quiet :
      (serial : Option Text) → Quiet (get_verified_hardware_by_atec_serial x serial)
  unfolding get_verified_hardware_by_atec_serial find_verified_hardware
  verified_hardware-Quiet none w = IsQuiet-refl w
  verified_hardware-Quiet (some atec_serial) w =
      moved-IsQuiet w
        (x.verified_hardware_model.find_one (λ d. d.atec_serial == x.to_lower_case atec_serial)
          w.verified_hardware w.env).1

  -- The service that is injected into the verification of relays.
  unfoldable pub hardware_service : HardwareService E
  unfolding get_verified_hardware_by_atec_serial is_hardware_proof_valid
  hardware_service = record {
    get_verified_hardware_by_atec_serial = get_verified_hardware_by_atec_serial x;
    is_hardware_proof_valid = is_hardware_proof_valid x;
    get_verified_hardware_by_atec_serial-IsQuiet = verified_hardware-Quiet;
    is_hardware_proof_valid-IsQuiet = hardware_proof-Quiet;
  }
