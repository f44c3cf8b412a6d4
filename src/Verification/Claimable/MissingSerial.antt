-- ===== src/Verification/Claimable/MissingSerial.antt =====
-- A relay whose hardware information has no ATEC serial, in `getRelaysToAddAsClaimable` of
-- src/verification/verification.service.ts with src/verification/hardware-verification.service.ts.
pub mod Pages
use operator_registry_contro.Prelude.{
  ℕ, ◌+◌, ◌<◌, ◌≡◌, refl, ◌∙◌, sym, ap, Bool, true, false, ◌&&◌, not, Option, none, some, List, [],
  ◌∷◌, ◌++◌, Text, text, includes, includes-append, count, count-le-add, is_some, Bool-cases, inl,
  inr, arith, ok, err, Action, Ensures, Ensures-ok, Ensures-map, Ensures-both, Ensures-after,
}
use operator_registry_contro.Validation.Dto.{RelayDataDto, RelayHardwareInfo, RelayInfo}
use operator_registry_contro.Validation.RelayInfoService.{
  RelayInfoStore, to_relay_data_dto, in_fingerprints,
}
use operator_registry_contro.Validation.RelayInfoService.Finds.{Matches}
use operator_registry_contro.Validation.RelayInfoService.Pages.{get_by_fingerprints_paginated_inv}
use operator_registry_contro.OperatorRegistry.{Property}
use operator_registry_contro.World.{World, Error, type_error, IsQuiet, IsQuiet-refl, IsQuiet-trans}
use operator_registry_contro.Verification.Claimable.{
  ClaimableRelaysResult, number_of_type, truthy_at, check_hardware, with_hardware, by_hardware,
  classify, classify_batch, get_relays_to_add_as_claimable,
}
use operator_registry_contro.Verification.Claimable.Verdicts.{has_dummy_address, is_new_relay}
use operator_registry_contro.Verification.Claimable.Loop.{IsSorted, classify_batch-IsSorted}
use operator_registry_contro.Verification.Hardware.Proof.{
  HardwareVerificationService, get_verified_hardware_by_atec_serial,
}
use operator_registry_contro.Verification.Hardware.Quiet.{hardware_service}

is_none-none : {A : Type 0} (o : Option A) → not (is_some o) ≡ true → o ≡ none
is_none-none none missing = refl
is_none-none (some a) missing = cc

-- The relay names hardware without an ATEC serial.
abbrev lacks : Option RelayHardwareInfo → Bool
lacks none = false
lacks (some info) = not (is_some (number_of_type (text "ATEC") info.ser_nums))

unfoldable pub lacks_atec_serial : RelayDataDto → Bool
lacks_atec_serial relay = lacks relay.hardware_info

module _ {E : Type 0} (x : HardwareVerificationService E) (claimable verified : List Text)
    (table : Property) where
  -- A relay that the loop asks the service of hardware about, and that lacks the serial.
  unfoldable pub needs_atec_serial : RelayDataDto → Bool
  needs_atec_serial relay =
      (is_new_relay claimable verified relay && not (truthy_at relay.fingerprint table))
      && lacks_atec_serial relay

  check_hardware-throws :
      (relay : RelayDataDto) (info : RelayHardwareInfo) (l : ClaimableRelaysResult) (w : World E)
      → number_of_type (text "ATEC") info.ser_nums ≡ none
      → (check_hardware (hardware_service x) claimable verified (some table) relay info l w).0
        ≡ err type_error
  unfolding check_hardware hardware_service get_verified_hardware_by_atec_serial
  check_hardware-throws relay info l w missing = rw missing refl

  by_hardware-throws :
      (relay : RelayDataDto) (info : Option RelayHardwareInfo) (l : ClaimableRelaysResult)
      (w : World E)
      → truthy_at relay.fingerprint table ≡ false
      → lacks info ≡ true
      → (by_hardware (hardware_service x) claimable verified (some table) relay info l w).0
        ≡ err type_error
  unfolding by_hardware with_hardware
  by_hardware-throws relay none l w unknown missing = cc
  by_hardware-throws relay (some info) l w unknown missing = rw unknown (
      check_hardware-throws relay info l w
        (is_none-none (number_of_type (text "ATEC") info.ser_nums) missing))

  classify-throws :
      (relay : RelayDataDto) (l : ClaimableRelaysResult) (w : World E)
      → needs_atec_serial relay ≡ true
      → (classify (hardware_service x) claimable verified (some table) relay l w).0 ≡ err type_error
  unfolding classify needs_atec_serial lacks_atec_serial
  classify-throws relay l w needed =
      let not_dummy : has_dummy_address relay ≡ false = ground arith in
      let unlisted : includes claimable relay.fingerprint ≡ false = ground arith in
      let unverified : includes verified relay.fingerprint ≡ false = ground arith in
      rw (not_dummy, unlisted, unverified)
        (by_hardware-throws relay relay.hardware_info l w (ground arith) (ground arith))

  -- No relay of the batch needs the serial, if the loop over it returns.
  pub classify_batch-returns :
      (batch : List RelayDataDto) (l : ClaimableRelaysResult) (w : World E)
      → Ensures
          (λ (l : ClaimableRelaysResult) (s : World E). count needs_atec_serial batch ≡ 0)
          (λ s. Unit {0})
          (classify_batch (hardware_service x) claimable verified (some table) batch l w).0
          (classify_batch (hardware_service x) claimable verified (some table) batch l w).1
  unfolding classify_batch
  classify_batch-returns [] l w = refl
  classify_batch-returns (relay ∷ batch) l w = elim (Bool-cases (needs_atec_serial relay)) [
    | inl needed ↦ rw (classify-throws relay l w needed) tt
    | inr fine ↦ rw fine (
        Ensures-after
          (λ (l : ClaimableRelaysResult) (s : World E). 0 + count needs_atec_serial batch ≡ 0)
          (λ s. Unit {0})
          (classify (hardware_service x) claimable verified (some table) relay l w).0
          (λ l'. classify_batch (hardware_service x) claimable verified (some table) batch l')
          (classify (hardware_service x) claimable verified (some table) relay l w).1 (λ s. tt)
          (λ l' s.
            Ensures-map
              (λ (l : ClaimableRelaysResult) (s : World E). count needs_atec_serial batch ≡ 0)
              (λ (l : ClaimableRelaysResult) (s : World E). 0 + count needs_atec_serial batch ≡ 0)
              (λ s. Unit {0})
              (classify_batch (hardware_service x) claimable verified (some table) batch l' s).0
              (classify_batch (hardware_service x) claimable verified (some table) batch l' s).1
              (classify_batch-returns batch l' s) (λ l s h. omega (arith, h))))
  ]
