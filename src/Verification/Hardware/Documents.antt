-- ===== src/Verification/Hardware/Documents.antt =====
-- The documents that `isHardwareProofValid` of src/verification/hardware-verification.service.ts writes, and
-- the fields that src/verification/schemas/*.ts require of them.
use operator_registry_contro.Prelude.{
  ℕ, Bool, false, ◌&&◌, not, Option, none, some, List, [], ◌∷◌, Text, text, is_empty, if◌then◌else◌,
}
use operator_registry_contro.Prelude.Numbers.{ℤ}
use operator_registry_contro.Validation.Dto.{Certificate, RelayDataDto, RelayHardwareInfo}
use operator_registry_contro.Verification.Claimable.{is_type, number_of_type}
use operator_registry_contro.Verification.Dto.{VerifiedHardware, HardwareVerificationFailure}
use operator_registry_contro.Verification.Hardware.SerialProof.{SerialProof, checked}

-- `certs?.find((c) => c.type === 'DEVICE')?.signature`
unfoldable pub find_signature : List Certificate → Option Text
find_signature [] = none
find_signature (c ∷ cs) = if is_type (text "DEVICE") c.type then c.signature else find_signature cs

unfoldable pub signature_of : Option (List Certificate) → Option Text
unfolding find_signature
signature_of none = none
signature_of (some certs) = find_signature certs

-- The argument of `create`, before the required fields are checked.
pub record Draft : Type 0 where
  pub verified_at : ℕ
  pub device_serial : Option Text
  pub atec_serial : Option Text
  pub fingerprint : Text
  pub address : Text
  pub public_key : Option Text
  pub signature : Option Text
  pub nft_id : ℤ

-- A required text is there if it is not the empty one.
abbrev pub is_given : Option Text → Bool
is_given none = false
is_given (some s) = not (is_empty s)

unfoldable pub is_complete : Draft → Bool
is_complete d =
    is_given d.device_serial
    && (is_given d.atec_serial
        && (is_given (some d.fingerprint)
            && (is_given (some d.address) && (is_given d.public_key && is_given d.signature))))

unfoldable pub to_document : Draft → VerifiedHardware
to_document d = record {
  verified_at = d.verified_at;
  device_serial = checked d.device_serial;
  atec_serial = checked d.atec_serial;
  fingerprint = d.fingerprint;
  address = d.address;
  public_key = checked d.public_key;
  signature = checked d.signature;
  nft_id = some d.nft_id;
  device_certificate = none;
  is_hardware_proof_valid = false;
}

-- What `isHardwareProofValid` reads of the hardware information for the document.
unfoldable pub to_draft : RelayDataDto → RelayHardwareInfo → ℤ → ℕ → Draft
unfolding number_of_type signature_of
to_draft relay info nft_id verified_at = record {
  verified_at = verified_at;
  device_serial = number_of_type (text "DEVICE") info.ser_nums;
  atec_serial = number_of_type (text "ATEC") info.ser_nums;
  fingerprint = relay.fingerprint;
  address = relay.any1_address;
  public_key = number_of_type (text "DEVICE") info.pub_keys;
  signature = signature_of info.certs;
  nft_id = nft_id;
}

unfoldable pub to_serial_proof : RelayDataDto → RelayHardwareInfo → Text → SerialProof
unfolding number_of_type signature_of
to_serial_proof relay info atec_serial = record {
  node_id = info.id;
  nft_id = 0;
  device_serial = number_of_type (text "DEVICE") info.ser_nums;
  atec_serial = atec_serial;
  fingerprint = relay.fingerprint;
  address = relay.any1_address;
  public_key = number_of_type (text "DEVICE") info.pub_keys;
  signature = signature_of info.certs;
}

unfoldable pub to_failure : RelayDataDto → ℕ → HardwareVerificationFailure
to_failure relay timestamp = record {
  fingerprint = relay.fingerprint;
  address = relay.any1_address;
  timestamp = timestamp;
  hardware_info = relay.hardware_info;
}
