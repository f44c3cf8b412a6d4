-- ===== src/Verification/Claimable.antt =====
-- `getRelaysToAddAsClaimable` of src/verification/verification.service.ts: every relay is either given a
-- result or put among those to add.
pub mod Loop
pub mod Verdicts
pub mod Reasons
pub mod Whole
pub mod MissingSerial
use operator_registry_contro.Prelude.{
  ℕ, Bool, true, false, not, ◌&&◌, ◌||◌, Option, none, some, List, [], ◌∷◌, ◌++◌, Text, text, ◌==◌,
  includes, is_empty, if◌then◌else◌, Action, ◌>>=◌, pure, throw,
}
use operator_registry_contro.Validation.Dto.{RelayDataDto, RelayHardwareInfo, TypedNumber}
use operator_registry_contro.Validation.RelayInfoService.{
  RelayInfoStore, get_by_fingerprints_paginated,
}
use operator_registry_contro.Verification.Dto.{
  RelayVerificationResult, failed, already_registered, already_verified, hardware_proof_failed,
  VerificationResultDto, VerifiedHardware,
}
use operator_registry_contro.Verification.HardwareService.{HardwareService}
use operator_registry_contro.OperatorRegistry.{
  Scalar, null, boolean, string, Property, object, array, RelayWithHardwareProof,
}
use operator_registry_contro.World.{World, Error, type_error}

pub record ClaimableRelaysResult : Type 0 where
  pub relays_to_add_as_claimable : List RelayWithHardwareProof
  pub results : List VerificationResultDto

abbrev pub dummy_address : Text
dummy_address = text "0xFFfFfFffFFfffFFfFFfFFFFFffFFFffffFfFFFfF"

-- `?.find((s) => s.type === type)?.number`
abbrev pub is_type : Text → Option Text → Bool
is_type type none = false
is_type type (some t) = t == type

unfoldable pub find_number : Text → List TypedNumber → Option Text
find_number type [] = none
find_number type (s ∷ ss) = if is_type type s.type then s.number else find_number type ss

unfoldable pub number_of_type : Text → Option (List TypedNumber) → Option Text
unfolding find_number
number_of_type type none = none
number_of_type type (some ss) = find_number type ss

-- Whether `table[key]` is truthy; a key that is no index of an array is not there.
abbrev pub is_truthy : Scalar → Bool
is_truthy null = false
is_truthy (boolean b) = b
is_truthy (string s) = not (is_empty s)

unfoldable pub truthy_in : Text → List (Text × Scalar) → Bool
truthy_in key [] = false
truthy_in key ((k, v) ∷ table) = if k == key then is_truthy v else truthy_in key table

unfoldable pub truthy_at : Text → Property → Bool
unfolding truthy_in
truthy_at key (object table) = truthy_in key table
truthy_at key (array items) = false

-- `results.push(...)` and `relaysToAddAsClaimable.push(...)`
abbrev pub push_result :
    RelayDataDto → RelayVerificationResult → ClaimableRelaysResult → ClaimableRelaysResult
push_result relay result l = record l {
  results = l.results ++ record { result = result; fingerprint = relay.fingerprint } ∷ [];
}

abbrev pub push_relay : RelayDataDto → Option Bool → ClaimableRelaysResult → ClaimableRelaysResult
push_relay relay proof l = record l {
  relays_to_add_as_claimable =
      l.relays_to_add_as_claimable
      ++ record { relay = relay; is_hardware_proof_valid = proof } ∷ [];
}

-- The device was verified with another fingerprint, which is not renounced.
pub is_taken : List Text → List Text → RelayDataDto → Option VerifiedHardware → Bool
is_taken claimable verified relay none = false
is_taken claimable verified relay (some existing) =
    not (existing.fingerprint == relay.fingerprint)
    && (includes claimable existing.fingerprint || includes verified existing.fingerprint)

module _ {E : Type 0} (hardware : HardwareService E) (claimable verified : List Text)
    (verified_hardware : Option Property) where
  pub prove :
      RelayDataDto → ClaimableRelaysResult → Bool → Action (World E) Error ClaimableRelaysResult
  prove relay l true = pure (push_result relay hardware_proof_failed l)
  prove relay l false = do
    is_valid ← hardware.is_hardware_proof_valid relay
    pure (
        if is_valid
        then push_relay relay (some true) l
        else push_result relay hardware_proof_failed l)

  pub check_hardware :
      RelayDataDto
      → RelayHardwareInfo
      → ClaimableRelaysResult
      → Action (World E) Error ClaimableRelaysResult
  unfolding is_taken prove
  check_hardware relay info l = do
    existing ←
        hardware.get_verified_hardware_by_atec_serial (number_of_type (text "ATEC") info.ser_nums)
    prove relay l (is_taken claimable verified relay existing)

  pub with_hardware :
      RelayDataDto
      → RelayHardwareInfo
      → Option Property
      → ClaimableRelaysResult
      → Action (World E) Error ClaimableRelaysResult
  unfolding check_hardware
  with_hardware relay info none l = throw type_error
  with_hardware relay info (some table) l =
      if truthy_at relay.fingerprint table
      then pure (push_relay relay none l)
      else check_hardware relay info l

  pub by_hardware :
      RelayDataDto
      → Option RelayHardwareInfo
      → ClaimableRelaysResult
      → Action (World E) Error ClaimableRelaysResult
  unfolding with_hardware
  by_hardware relay none l = pure (push_relay relay none l)
  by_hardware relay (some info) l = with_hardware relay info verified_hardware l

  -- the body of `for (const relay of batch)`; its last branch cannot be reached
  pub classify : RelayDataDto → ClaimableRelaysResult → Action (World E) Error ClaimableRelaysResult
  unfolding by_hardware
  classify relay l =
      if relay.any1_address == dummy_address
      then pure (push_result relay failed l)
      else if includes claimable relay.fingerprint
      then pure (push_result relay already_registered l)
      else if includes verified relay.fingerprint
      then pure (push_result relay already_verified l)
      else by_hardware relay relay.hardware_info l

  pub classify_batch :
      List RelayDataDto → ClaimableRelaysResult → Action (World E) Error ClaimableRelaysResult
  unfolding classify
  classify_batch [] l = pure l
  classify_batch (relay ∷ batch) l = do l' ← classify relay l; classify_batch batch l'

  unfoldable pub get_relays_to_add_as_claimable :
      RelayInfoStore E → List Text → Action (World E) Error ClaimableRelaysResult
  unfolding classify_batch
  get_relays_to_add_as_claimable store fingerprints =
      get_by_fingerprints_paginated store fingerprints 1000
        (λ batch batch_index total_batches l. classify_batch batch l)
        (record { relays_to_add_as_claimable = []; results = [] })
