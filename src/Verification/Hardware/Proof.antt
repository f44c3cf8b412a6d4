-- ===== src/Verification/Hardware/Proof.antt =====
-- `isHardwareProofValid` and the reads of verified hardware of
-- src/verification/hardware-verification.service.ts.
use operator_registry_contro.Prelude.{
  ℕ, ◌<◌, ◌≡◌, Bool, true, false, ◌&&◌, not, Option, none, some, Text, text, ◌==◌, is_empty, lower,
  All, if◌then◌else◌, Action, ◌>>=◌, pure, throw,
}
use operator_registry_contro.Prelude.Numbers.{ℤ, pos}
use operator_registry_contro.Validation.Dto.{RelayDataDto, RelayHardwareInfo}
use operator_registry_contro.Verification.Claimable.{number_of_type}
use operator_registry_contro.Verification.Dto.{
  VerifiedHardware, HardwareVerificationFailure, KnownDevice,
}
use operator_registry_contro.Verification.Hardware.Owner.{
  NftContracts, validate_nft_id_for_address_and_device_serial,
}
use operator_registry_contro.Verification.Hardware.SerialProof.{Crypto, verify_relay_serial_proof}
use operator_registry_contro.Verification.Hardware.Documents.{
  Draft, is_given, is_complete, to_document, to_draft, to_serial_proof, to_failure,
}
use operator_registry_contro.World.{World, Error, service_error, type_error, as_error, ask, read}
use operator_registry_contro.World.Collection.{Collection}

pub record HardwareVerificationService (E : Type 0) : Type 0 where
  pub verified_hardware_model : Collection E VerifiedHardware
  pub hardware_verification_failure_model : Collection E HardwareVerificationFailure
  pub known_device_model : Collection E KnownDevice
  pub now : E → ℕ × E
  pub crypto : Crypto
  pub nft_contracts : NftContracts E
  -- `toLowerCase`, of which only what it does in ASCII is written out
  pub to_lower_case : Text → Text
  pub to_lower_case_ascii : (s : Text) → All (λ c. c < 128) s → to_lower_case s ≡ lower s
  -- the message of the error of a document without a required field
  pub validation_error : Text

-- `nftId && nftId !== '0'`
abbrev pub has_nft_id : Option Text → Bool
has_nft_id none = false
has_nft_id (some nft_id) = not (is_empty nft_id) && not (nft_id == text "0")

module _ {E : Type 0} (x : HardwareVerificationService E) where
  unfoldable pub find_verified_hardware :
      (VerifiedHardware → Bool) → Action (World E) Error (Option VerifiedHardware)
  find_verified_hardware p w = ask (x.verified_hardware_model.find_one p w.verified_hardware) w

  unfoldable pub find_known_device :
      (KnownDevice → Bool) → Action (World E) Error (Option KnownDevice)
  find_known_device p w = ask (x.known_device_model.find_one p w.known_devices) w

  -- A serial that is not there has no `toLowerCase`.
  unfoldable pub get_verified_hardware_by_atec_serial :
      Option Text → Action (World E) Error (Option VerifiedHardware)
  unfolding find_verified_hardware
  get_verified_hardware_by_atec_serial none w = throw type_error w
  get_verified_hardware_by_atec_serial (some atec_serial) w =
      find_verified_hardware (λ d. d.atec_serial == x.to_lower_case atec_serial) w

  -- `validateDeviceSerial` and `validateAtecSerial`, which differ in the field that they compare
  unfoldable pub validate_serial :
      (VerifiedHardware → Text) → Option Text → Action (World E) Error Bool
  unfolding find_verified_hardware
  validate_serial field none w = pure false w
  validate_serial field (some serial) w =
      if is_empty serial
      then pure false w
      else (do
        existing ← find_verified_hardware (λ d. field d == serial)
        pure (elim existing [ none ↦ true | some d ↦ false ]))
          w

  unfoldable pub validate_device_serial : Option Text → Action (World E) Error Bool
  unfolding validate_serial
  validate_device_serial = validate_serial (λ d. d.device_serial)

  unfoldable pub validate_atec_serial : Option Text → Action (World E) Error Bool
  unfolding validate_serial
  validate_atec_serial = validate_serial (λ d. d.atec_serial)

  unfoldable pub create_verified_hardware : Draft → Action (World E) Error (Unit {0})
  unfolding is_complete to_document
  create_verified_hardware draft w =
      if is_complete draft
      then (let (r, e, ds) =
            x.verified_hardware_model.create (to_document draft) w.verified_hardware w.env in
          (as_error r, record w { env = e; verified_hardware = ds }))
      else throw (service_error x.validation_error) w

  unfoldable pub create_failure : HardwareVerificationFailure → Action (World E) Error (Unit {0})
  create_failure failure w =
      if is_given (some failure.fingerprint) && is_given (some failure.address)
      then (let (r, e, ds) =
            x.hardware_verification_failure_model.create failure w.hardware_failures w.env in
          (as_error r, record w { env = e; hardware_failures = ds }))
      else throw (service_error x.validation_error) w

  unfoldable pub accept : RelayDataDto → RelayHardwareInfo → ℤ → Action (World E) Error Bool
  unfolding create_verified_hardware to_draft
  accept relay info nft_id = do
    verified_at ← read x.now
    created ← create_verified_hardware (to_draft relay info nft_id verified_at)
    pure true

  -- Case 1, after the check of the number
  unfoldable pub accept_nft :
      RelayDataDto → RelayHardwareInfo → Option ℤ → Action (World E) Error Bool
  unfolding accept
  accept_nft relay info none w = pure false w
  accept_nft relay info (some nft_id) w = accept relay info nft_id w

  unfoldable pub by_nft_id : RelayDataDto → RelayHardwareInfo → Action (World E) Error Bool
  unfolding accept_nft validate_nft_id_for_address_and_device_serial
  by_nft_id relay info = do
    validated ←
        validate_nft_id_for_address_and_device_serial x.nft_contracts relay.any1_address info.nftid
    accept_nft relay info validated

  -- Case 3, after the search for the known device
  unfoldable pub by_serial_proof :
      RelayDataDto → RelayHardwareInfo → Text → Option KnownDevice → Action (World E) Error Bool
  unfolding accept to_serial_proof verify_relay_serial_proof
  by_serial_proof relay info atec_serial none w = pure false w
  by_serial_proof relay info atec_serial (some device) w =
      (do
        is_verified ←
            (λ w. (verify_relay_serial_proof x.crypto (to_serial_proof relay info atec_serial), w))
        if is_verified then accept relay info (pos 0) else pure false)
        w

  unfoldable pub by_known_device :
      RelayDataDto → RelayHardwareInfo → Option Text → Action (World E) Error Bool
  unfolding by_serial_proof find_known_device
  by_known_device relay info none w = throw type_error w
  by_known_device relay info (some atec_serial) w =
      (do
        known ← find_known_device (λ d. d.unique_id == x.to_lower_case atec_serial)
        by_serial_proof relay info atec_serial known)
        w

  unfoldable pub prove : RelayDataDto → Option RelayHardwareInfo → Action (World E) Error Bool
  unfolding by_nft_id by_known_device number_of_type
  prove relay none w = pure false w
  prove relay (some info) w =
      if has_nft_id info.nftid
      then by_nft_id relay info w
      else by_known_device relay info (number_of_type (text "ATEC") info.ser_nums) w

  -- `if (!isValid)` at the end
  unfoldable pub record_failure : RelayDataDto → Bool → Action (World E) Error Bool
  unfolding create_failure to_failure
  record_failure relay true w = pure true w
  record_failure relay false w =
      (do timestamp ← read x.now; created ← create_failure (to_failure relay timestamp); pure false)
        w

  unfoldable pub is_hardware_proof_valid : RelayDataDto → Action (World E) Error Bool
  unfolding prove record_failure
  is_hardware_proof_valid relay = do
    is_valid ← prove relay relay.hardware_info
    record_failure relay is_valid
