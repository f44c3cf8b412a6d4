-- ===== src/Verification/Dto.antt =====
-- src/verification/dto/*.ts and src/verification/schemas/*.ts: results of a verification and the documents
-- that it leaves in the database.
use operator_registry_contro.Prelude.{ℕ, Bool, true, false, Option, List, Text}
use operator_registry_contro.Prelude.Numbers.{ℤ}
use operator_registry_contro.Validation.Dto.{Double, RelayDataDto, RelayHardwareInfo}

-- The string literals of the union, in its order.
pub data RelayVerificationResult : Type 0 where
  result_ok already_verified already_registered hardware_proof_failed failed already_set_family
        ao_message_failed :
      RelayVerificationResult

-- `=== 'OK'` and so on.
abbrev pub is_ok : RelayVerificationResult → Bool
is_ok result_ok = true
is_ok _ = false

abbrev pub is_already_verified : RelayVerificationResult → Bool
is_already_verified already_verified = true
is_already_verified _ = false

abbrev pub is_already_registered : RelayVerificationResult → Bool
is_already_registered already_registered = true
is_already_registered _ = false

abbrev pub is_failed : RelayVerificationResult → Bool
is_failed failed = true
is_failed _ = false

pub record VerificationResultDto : Type 0 where
  pub result : RelayVerificationResult
  pub fingerprint : Text

pub record EnrichedVerificationResult : Type 0 where
  pub result : RelayVerificationResult
  pub fingerprint : Text
  pub relay : RelayDataDto

pub record RelayVerificationResultsDto : Type 0 where
  pub failed : ℕ
  pub unclaimed : ℕ
  pub verified : ℕ
  pub running : ℕ

pub record ValidationStatsDto : Type 0 where
  pub consensus_weight : ℕ
  pub observed_bandwidth : ℕ
  pub consensus_weight_fraction : Double

pub record RelayValidationStatsDto : Type 0 where
  pub consensus_weight : ℕ
  pub consensus_weight_fraction : Double
  pub observed_bandwidth : ℕ
  pub verification : RelayVerificationResultsDto
  pub verified_and_running : ValidationStatsDto

pub record VerificationData : Type 0 where
  pub verified_at : ℕ
  pub relay_metrics_tx : Text
  pub validation_stats_tx : Text

pub record VerificationRecovery : Type 0 where
  pub retries_left : ℕ
  pub verification_results : List VerificationResultDto
  pub verification_data : VerificationData

-- A document of the collection of verified hardware.
pub record VerifiedHardware : Type 0 where
  pub verified_at : ℕ
  pub device_serial : Text
  pub atec_serial : Text
  pub fingerprint : Text
  pub address : Text
  pub public_key : Text
  pub signature : Text
  pub nft_id : Option ℤ
  pub device_certificate : Option Text
  pub is_hardware_proof_valid : Bool

pub record HardwareVerificationFailure : Type 0 where
  pub fingerprint : Text
  pub address : Text
  pub timestamp : ℕ
  pub hardware_info : Option RelayHardwareInfo

-- src/verification/schemas/known-device.schema.ts
pub record KnownDeviceRawManifest : Type 0 where
  pub payload : Text
  pub protected : Text
  pub header_unique_id : Text
  pub signature : Text

pub record Organization : Type 0 where
  pub organization_name : Text
  pub organizational_unit_name : Text

pub record KnownDeviceKey : Type 0 where
  pub kid : Text
  pub kty : Text
  pub crv : Text
  pub x : Text
  pub y : Text
  pub x5c : Option (List Text)

pub record KnownDeviceDecodedManifest : Type 0 where
  pub version : ℕ
  pub model : Text
  pub part_number : Text
  pub manufacturer : Organization
  pub provisioner : Organization
  pub distributor : Organization
  pub group_id : Text
  pub provisioning_timestamp : Text
  pub unique_id : Text
  pub keys : List KnownDeviceKey

pub record KnownDevice : Type 0 where
  pub unique_id : Text
  pub pub_key_hex : Text
  pub pub_keys_hex : List Text
  pub raw : KnownDeviceRawManifest
  pub decoded : KnownDeviceDecodedManifest
  pub created_at : ℕ
