-- ===== src/Verification/Hardware/Cases/OwnedToken.antt =====
-- The first case of `isHardwareProofValid` of src/verification/hardware-verification.service.ts: a token.
use operator_registry_contro.Prelude.{
  ◌≡◌, refl, inl, inr, Bool, true, false, Option, none, some, Text, is_empty, Bool-cases,
  if◌then◌else◌, pure, Ensures, Ensures-continue, Ensures-weaken,
}
use operator_registry_contro.Prelude.Numbers.{ℤ}
use operator_registry_contro.Validation.Dto.{RelayDataDto, RelayHardwareInfo}
use operator_registry_contro.Verification.Hardware.Owner.{
  is_owner_of_relayup_nft, owned, parse_nft_id, validate_nft_id_for_address_and_device_serial,
}
use operator_registry_contro.Verification.Hardware.Ownership.{
  Answered, is_owner_of_relayup_nft-Answers,
}
use operator_registry_contro.Verification.Hardware.Proof.{
  HardwareVerificationService, has_nft_id, accept_nft, by_nft_id,
}
use operator_registry_contro.World.{World}
use operator_registry_contro.Verification.Hardware.Cases.{
  Evidence, owned_nft, Proved, Unknown, accept-IsAccepted,
}

module _ {E : Type 0} (x : HardwareVerificationService E) where
  -- The number that the check of the first case passes on.
  abbrev Validated : RelayDataDto → RelayHardwareInfo → World E → Option ℤ → World E → Type 0
  Validated relay info v none s = (e : E) × (s ≡ record v { env = e })
  Validated relay info v (some n) s =
      ((e : E) × (s ≡ record v { env = e })) × Evidence x relay info v n

  verdict-Validated :
      (relay : RelayDataDto) (info : RelayHardwareInfo) (v : World E) (n : ℤ) (nft_id : Text)
      → info.nftid ≡ some nft_id
      → has_nft_id (some nft_id) ≡ true
      → parse_nft_id x.nft_contracts nft_id ≡ some n
      → (b : Bool) (s : World E) → Answered x.nft_contracts relay.any1_address n v b s
      → Validated relay info v (if b then some n else none) s
  verdict-Validated relay info v n nft_id given wanted read true s (moved, inl never) = cc
  verdict-Validated relay info v n nft_id given wanted read true s (moved, inr confirmed) =
      (moved, owned_nft nft_id given wanted read confirmed)
  verdict-Validated relay info v n nft_id given wanted read false s (moved, verdict) = moved

  owned-Validated :
      (relay : RelayDataDto) (info : RelayHardwareInfo) (v : World E) (nft_id : Text)
      (parsed : Option ℤ)
      → info.nftid ≡ some nft_id
      → has_nft_id (some nft_id) ≡ true
      → parse_nft_id x.nft_contracts nft_id ≡ parsed
      → Ensures
          (Validated relay info v)
          (Unknown x)
          (owned x.nft_contracts relay.any1_address parsed v).0
          (owned x.nft_contracts relay.any1_address parsed v).1
  owned-Validated relay info v nft_id none given wanted read = (v.env, refl)
  owned-Validated relay info v nft_id (some n) given wanted read =
      Ensures-continue (Answered x.nft_contracts relay.any1_address n v) (Validated relay info v)
        (Unknown x) (is_owner_of_relayup_nft x.nft_contracts relay.any1_address n v).0
        (λ is_owner. pure (if is_owner then some n else none))
        (is_owner_of_relayup_nft x.nft_contracts relay.any1_address n v).1
        (Ensures-weaken (Answered x.nft_contracts relay.any1_address n v) (λ s. ⊥) (Unknown x)
          (is_owner_of_relayup_nft x.nft_contracts relay.any1_address n v).0
          (is_owner_of_relayup_nft x.nft_contracts relay.any1_address n v).1 (λ s h. tt)
          (is_owner_of_relayup_nft-Answers x.nft_contracts relay.any1_address n v))
        (verdict-Validated relay info v n nft_id given wanted read)

  validate-Validated :
      (relay : RelayDataDto) (info : RelayHardwareInfo) (v : World E) (nft_id : Option Text)
      → info.nftid ≡ nft_id
      → has_nft_id nft_id ≡ true
      → Ensures
          (Validated relay info v)
          (Unknown x)
          (validate_nft_id_for_address_and_device_serial x.nft_contracts relay.any1_address nft_id
            v).0
          (validate_nft_id_for_address_and_device_serial x.nft_contracts relay.any1_address nft_id
            v).1
  unfolding validate_nft_id_for_address_and_device_serial
  validate-Validated relay info v none given wanted = (v.env, refl)
  validate-Validated relay info v (some nft_id) given wanted = elim (Bool-cases (is_empty nft_id)) [
    | inl empty ↦ rw empty ((v.env, refl))
    | inr long ↦ rw long (
        owned-Validated relay info v nft_id (parse_nft_id x.nft_contracts nft_id) given wanted refl)
  ]

  accept_nft-Proved :
      (relay : RelayDataDto) (info : RelayHardwareInfo) (v : World E) (validated : Option ℤ)
      (s : World E)
      → Validated relay info v validated s
      → Ensures
          (Proved x relay info v)
          (Unknown x)
          (accept_nft x relay info validated s).0
          (accept_nft x relay info validated s).1
  unfolding accept_nft
  accept_nft-Proved relay info v none s (e, moved) = rw moved (refl, refl, refl)
  accept_nft-Proved relay info v (some n) s ((e, moved), evidence) =
      rw moved (accept-IsAccepted x relay info n v e evidence)

  pub by_nft_id-Proved :
      (relay : RelayDataDto) (info : RelayHardwareInfo) (v : World E)
      → has_nft_id info.nftid ≡ true
      → Ensures
          (Proved x relay info v)
          (Unknown x)
          (by_nft_id x relay info v).0
          (by_nft_id x relay info v).1
  unfolding by_nft_id
  by_nft_id-Proved relay info v wanted =
      Ensures-continue (Validated relay info v) (Proved x relay info v) (Unknown x)
        (validate_nft_id_for_address_and_device_serial x.nft_contracts relay.any1_address info.nftid
          v).0
        (accept_nft x relay info)
        (validate_nft_id_for_address_and_device_serial x.nft_contracts relay.any1_address info.nftid
          v).1
        (validate-Validated relay info v info.nftid refl wanted) (accept_nft-Proved relay info v)
