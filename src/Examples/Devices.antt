-- ===== src/Examples/Devices.antt =====
-- The theorems on the verification of hardware, on services in memory whose cryptography accepts every
-- signature, and where one contract has one owner.
use operator_registry_contro.Prelude.{
  ℕ, ◌+◌, ◌≡◌, ◌⊎◌, refl, Bool, true, false, Option, none, some, List, [], ◌∷◌, ◌++◌, text, text_eq,
  includes, lower, All, flatten, arith, ok,
}
use operator_registry_contro.Prelude.Numbers.{pos}
use operator_registry_contro.Validation.Dto.{RelayDataDto, RelayHardwareInfo, RelayInfo}
use operator_registry_contro.Verification.Claimable.{
  ClaimableRelaysResult, number_of_type, truthy_at, get_relays_to_add_as_claimable,
}
use operator_registry_contro.Validation.RelayInfoService.{
  to_relay_data_dto, get_by_fingerprints_paginated, get_by_fingerprints,
}
use operator_registry_contro.Util.SendAosMessage.{send_aos_dry_run, send_aos_message}
use operator_registry_contro.Verification.Dto.{VerifiedHardware}
use operator_registry_contro.Verification.Hardware.SerialProof.{Crypto}
use operator_registry_contro.Verification.Hardware.Owner.{
  Contract, NftContracts, parse_nft_id, is_owner_of_relayup_nft,
}
use operator_registry_contro.Verification.Hardware.Ownership.{
  IsConfirmed, is_owner_of_relayup_nft-returns,
}
use operator_registry_contro.Verification.Hardware.Documents.{to_failure}
use operator_registry_contro.Verification.Hardware.Proof.{
  HardwareVerificationService, is_hardware_proof_valid, get_verified_hardware_by_atec_serial,
}
use operator_registry_contro.Verification.Hardware.Cases.{IsAccepted}
use operator_registry_contro.Verification.Hardware.Soundness.{
  is_hardware_proof_valid-true, is_hardware_proof_valid-false,
}
use operator_registry_contro.Verification.Hardware.Lookup.{
  get_verified_hardware_by_atec_serial-none,
}
use operator_registry_contro.Verification.Hardware.Quiet.{hardware_service}
use operator_registry_contro.Verification.Claimable.MissingSerial.{lacks_atec_serial}
use operator_registry_contro.Verification.Claimable.MissingSerial.Pages.{
  is_asked, get_relays_to_add_as_claimable-throws,
}
use operator_registry_contro.Verification.Verify.{VerificationService, verify_relays}
use operator_registry_contro.Verification.Verify.Submits.{Posted}
use operator_registry_contro.Verification.Verify.Devices.{HasEvidence, verify_relays-HasEvidence}
use operator_registry_contro.OperatorRegistry.{
  OperatorRegistry, RelayWithHardwareProof, object, get_operator_registry_state,
  admin_submit_operator_certificates,
}
use operator_registry_contro.World.{World}
use operator_registry_contro.World.Collection.{memory}
use operator_registry_contro.Examples.Services.{
  clock, relay, document, world, store, verification_service, registry, raw_state, singles,
}

abbrev pub crypto : Crypto
crypto = record {
  to_utf8_bytes = λ s. ok (0xab ∷ []);
  bytes_to_hex = λ bytes. text "ab";
  sha256 = λ message. text "digest";
  p256_verify = λ signature digest key. ok true;
}

-- "0x1" owns every token.
abbrev pub owner_contract : Contract ℕ
owner_contract nft_id n = (ok (text "0x1"), n + 1)

abbrev nft_contracts : NftContracts ℕ
nft_contracts = record {
  relayup_nft_contract = some owner_contract;
  backup_relayup_nft_contract = none;
  round_to_double = λ n. some n;
  round_to_double_small = λ n h. refl;
}

abbrev pub devices : HardwareVerificationService ℕ
devices = record {
  verified_hardware_model = memory;
  hardware_verification_failure_model = memory;
  known_device_model = memory;
  now = clock;
  crypto = crypto;
  nft_contracts = nft_contracts;
  to_lower_case = lower;
  to_lower_case_ascii = λ s h. refl;
  validation_error = text "VerifiedHardware validation failed";
}

abbrev pub info : RelayHardwareInfo
info = record {
  id = none;
  company = none;
  format = none;
  wallet = none;
  fingerprint = none;
  nftid = some (text "7");
  build = none;
  flags = none;
  ser_nums = some (
      record { type = some (text "DEVICE"); number = some (text "1") }
      ∷ record { type = some (text "ATEC"); number = some (text "AB") }
      ∷ []);
  pub_keys = some (record { type = some (text "DEVICE"); number = some (text "2") } ∷ []);
  certs =
      some (record { type = some (text "DEVICE"); signature = some (text "3"); cert = none } ∷ []);
}

abbrev pub device_relay : RelayDataDto
device_relay = record relay { hardware_info = some info }

is_owner_of_relayup_nft-returns_example :
    (b : Bool) × ((is_owner_of_relayup_nft nft_contracts (text "0x1") (pos 7) world).0 ≡ ok b)
    × ((e : ℕ) × ((is_owner_of_relayup_nft nft_contracts (text "0x1") (pos 7) world).1
          ≡ record world { env = e }))
    × ((b ≡ false) ⊎ IsConfirmed nft_contracts (text "0x1") (pos 7))
is_owner_of_relayup_nft-returns_example =
    is_owner_of_relayup_nft-returns nft_contracts (text "0x1") (pos 7) world

is_hardware_proof_valid-true_example :
    (i : RelayHardwareInfo) × (some info ≡ some i)
    × IsAccepted devices device_relay i world (is_hardware_proof_valid devices device_relay world).1
unfolding is_hardware_proof_valid text_eq parse_nft_id is_owner_of_relayup_nft memory
is_hardware_proof_valid-true_example = is_hardware_proof_valid-true devices device_relay world refl

is_hardware_proof_valid-false_example :
    ((is_hardware_proof_valid devices relay world).1.verified_hardware ≡ [])
    × (t : ℕ) × ((is_hardware_proof_valid devices relay world).1.hardware_failures
        ≡ [] ++ to_failure relay t ∷ [])
unfolding is_hardware_proof_valid memory
is_hardware_proof_valid-false_example = is_hardware_proof_valid-false devices relay world refl

get_verified_hardware_by_atec_serial-none_example : ◌≡◌ {A = Option VerifiedHardware} none none
unfolding is_hardware_proof_valid text_eq parse_nft_id is_owner_of_relayup_nft memory lower
    get_verified_hardware_by_atec_serial
get_verified_hardware_by_atec_serial-none_example =
    get_verified_hardware_by_atec_serial-none devices device_relay info (text "AB") world none refl
      refl (omega arith, (omega arith, tt)) (λ h. cc) refl refl refl

no_serials : RelayInfo
no_serials = record document { hardware_info = some (record info { ser_nums = none }) }

abbrev nothing_sorted : ClaimableRelaysResult
nothing_sorted = record { relays_to_add_as_claimable = []; results = [] }

get_relays_to_add_as_claimable-throws_example : ¬ (
    (get_relays_to_add_as_claimable
      (hardware_service devices)
      []
      []
      (some (object []))
      store
      (text "A" ∷ [])
      (record world { relay_infos = no_serials ∷ [] })).0
    ≡ ok nothing_sorted)
unfolding is_asked no_serials includes text_eq to_relay_data_dto truthy_at lacks_atec_serial
    number_of_type
get_relays_to_add_as_claimable-throws_example =
    get_relays_to_add_as_claimable-throws devices [] [] (object []) store
      (record world { relay_infos = no_serials ∷ [] }) (text "A" ∷ []) nothing_sorted (omega arith)

-- The registry knows no hardware.
abbrev device_registry : OperatorRegistry ℕ
device_registry = record registry {
  parse = λ t. ok (raw_state ++ (text "VerifiedHardwareFingerprints", object []) ∷ []);
}

abbrev device_verification : VerificationService ℕ
device_verification = record verification_service {
  hardware = hardware_service devices;
  registry = device_registry;
}

device_world : World ℕ
device_world = record world { relay_infos = record document { hardware_info = some info } ∷ [] }

verify_relays-HasEvidence_example :
    (chunks : List (List RelayWithHardwareProof)) × Posted device_verification.registry chunks []
      (verify_relays device_verification (text "A" ∷ []) device_world).1.sent
    × All (HasEvidence devices device_world) (flatten chunks)
unfolding verify_relays get_operator_registry_state send_aos_dry_run text_eq
    get_relays_to_add_as_claimable get_by_fingerprints_paginated get_by_fingerprints memory includes
    to_relay_data_dto singles device_world hardware_service truthy_at number_of_type
    is_hardware_proof_valid parse_nft_id is_owner_of_relayup_nft lower
    get_verified_hardware_by_atec_serial admin_submit_operator_certificates send_aos_message
verify_relays-HasEvidence_example =
    verify_relays-HasEvidence devices device_verification (text "A" ∷ []) device_world [] refl refl
      refl
