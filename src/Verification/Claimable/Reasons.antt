-- ===== src/Verification/Claimable/Reasons.antt =====
-- Why `getRelaysToAddAsClaimable` of src/verification/verification.service.ts gives a relay a result or puts it
-- among those to add, in terms of the relay, the registry and the answers of the service of hardware.
use operator_registry_contro.Prelude.{
  ◌≡◌, refl, sym, ◌∙◌, true, false, ◌||◌, Option, none, some, List, [], ◌∷◌, ◌++◌, Text, text, ◌==◌,
  includes, All, ◌⊎◌, inl, inr, ok, arith,
}
use operator_registry_contro.Validation.Dto.{RelayDataDto, RelayHardwareInfo}
use operator_registry_contro.Verification.Dto.{
  RelayVerificationResult, hardware_proof_failed, failed, already_registered, already_verified,
  VerificationResultDto, VerifiedHardware,
}
use operator_registry_contro.Verification.HardwareService.{HardwareService}
use operator_registry_contro.OperatorRegistry.{Property, RelayWithHardwareProof}
use operator_registry_contro.World.{World, IsQuiet, IsQuiet-trans}
use operator_registry_contro.Verification.Claimable.{number_of_type, truthy_at, is_taken}
use operator_registry_contro.Verification.Claimable.Verdicts.{
  Deserves, is_new_relay, is_claimable_relay, is_verified_relay, has_dummy_address,
}

module _ {E : Type 0} (hardware : HardwareService E) (claimable verified : List Text)
    (table : Option Property) where
  -- The device was verified for another relay, which is still in one of the registry's lists.
  abbrev pub IsTaken : RelayDataDto → Option VerifiedHardware → Type 0
  IsTaken relay existing =
      (e : VerifiedHardware) × (existing ≡ some e)
      × ((e.fingerprint == relay.fingerprint) ≡ false)
      × ((includes claimable e.fingerprint || includes verified e.fingerprint) ≡ true)

  pub is_taken-IsTaken :
      (relay : RelayDataDto) (existing : Option VerifiedHardware)
      → is_taken claimable verified relay existing ≡ true
      → IsTaken relay existing
  unfolding is_taken
  is_taken-IsTaken relay none h = cc
  is_taken-IsTaken relay (some e) h = (e, refl, ground arith, ground arith)

  pub is_taken-free :
      (relay : RelayDataDto) (existing : Option VerifiedHardware)
      → is_taken claimable verified relay existing ≡ false
      → ¬ (IsTaken relay existing)
  unfolding is_taken
  is_taken-free relay none h (e, found, other, listed) = cc
  is_taken-free relay (some d) h (e, found, other, listed) =
      let same : d ≡ e = cc in
      let taken : is_taken claimable verified relay (some d) ≡ true =
        rw (same, other, listed) refl in
      let contra : false ≡ true = sym h ∙ taken in cc

  module _ (start : World E) where
    -- The relay names hardware that the registry's table does not have, and the service was asked for the
    -- verified hardware with its ATEC serial.
    pub record Examined (relay : RelayDataDto) : Type 0 where
      pub info : RelayHardwareInfo
      pub has_info : relay.hardware_info ≡ some info
      pub listed : Property
      pub table_eq : table ≡ some listed
      pub unknown : truthy_at relay.fingerprint listed ≡ false
      pub before : World E
      pub begun : IsQuiet start before
      pub existing : Option VerifiedHardware
      pub found :
          (hardware.get_verified_hardware_by_atec_serial
            (number_of_type (text "ATEC") info.ser_nums)
            before).0
          ≡ ok existing

    -- The state in which the service is then asked for the proof.
    abbrev pub asked : (relay : RelayDataDto) → Examined relay → World E
    asked relay c =
        (hardware.get_verified_hardware_by_atec_serial
          (number_of_type (text "ATEC") c.info.ser_nums) c.before).1

    pub asked-IsQuiet : (relay : RelayDataDto) (c : Examined relay) → IsQuiet start (asked relay c)
    asked-IsQuiet relay c = IsQuiet-trans c.begun (
        hardware.get_verified_hardware_by_atec_serial-IsQuiet
          (number_of_type (text "ATEC") c.info.ser_nums) c.before)

    -- The device of the relay is not verified for another relay that is still registered, and then its
    -- proof was found valid.
    pub record IsProved (relay : RelayDataDto) : Type 0 where
      pub examined : Examined relay
      pub not_taken : ¬ (IsTaken relay examined.existing)
      pub valid : (hardware.is_hardware_proof_valid relay (asked relay examined)).0 ≡ ok true

    -- The device of the relay is verified for another relay that is still registered, or its proof was
    -- found invalid.
    pub record IsUnproved (relay : RelayDataDto) : Type 0 where
      pub examined : Examined relay
      pub reason :
          IsTaken relay examined.existing
          ⊎ ((hardware.is_hardware_proof_valid relay (asked relay examined)).0 ≡ ok false)

    -- A relay to add is new, and its hardware, if it names any, is known to the registry or proved now;
    -- it is marked as proved in the last case only.
    pub record IsAdmissible (r : RelayWithHardwareProof) : Type 0 where
      pub is_new : is_new_relay claimable verified r.relay ≡ true
      pub proof :
          ((r.is_hardware_proof_valid ≡ none) × (r.relay.hardware_info ≡ none))
          ⊎ ((r.is_hardware_proof_valid ≡ none)
              × ((t : Property) × (table ≡ some t) × (truthy_at r.relay.fingerprint t ≡ true)))
          ⊎ ((r.is_hardware_proof_valid ≡ some true) × IsProved r.relay)

    -- What earns a relay its result.
    abbrev pub IsDeserved : RelayDataDto → RelayVerificationResult → Type 0
    IsDeserved relay failed = has_dummy_address relay ≡ true
    IsDeserved relay already_registered = is_claimable_relay claimable relay ≡ true
    IsDeserved relay already_verified = is_verified_relay claimable verified relay ≡ true
    IsDeserved relay hardware_proof_failed =
        (is_new_relay claimable verified relay ≡ true) × IsUnproved relay
    IsDeserved relay _ = ⊥

    pub IsDeserved-Deserves :
        (relay : RelayDataDto) (result : RelayVerificationResult)
        → IsDeserved relay result
        → Deserves claimable verified relay result
    IsDeserved-Deserves relay failed d = d
    IsDeserved-Deserves relay already_registered d = d
    IsDeserved-Deserves relay already_verified d = d
    IsDeserved-Deserves relay hardware_proof_failed d = d.0
    IsDeserved-Deserves relay _ d = absurd d

    -- The relays in their order: each is given the one result that it deserves, or is added as admissible.
    pub data Account
        : List RelayDataDto
          → List VerificationResultDto
          → List RelayWithHardwareProof
          → Type 0 where
      nothing_seen : Account [] [] []
      given_result :
          {seen : List RelayDataDto} {results : List VerificationResultDto}
          {added : List RelayWithHardwareProof} (relay : RelayDataDto)
          (result : RelayVerificationResult)
          → IsDeserved relay result
          → Account seen results added
          → Account
              (seen ++ relay ∷ [])
              (results ++ record { result = result; fingerprint = relay.fingerprint } ∷ [])
              added
      put_to_add :
          {seen : List RelayDataDto} {results : List VerificationResultDto}
          {added : List RelayWithHardwareProof} (r : RelayWithHardwareProof)
          → IsAdmissible r
          → Account seen results added
          → Account (seen ++ r.relay ∷ []) results (added ++ r ∷ [])

  -- What holds from a state on holds from an earlier one that was only read.
  pub IsAdmissible-earlier :
      {start v : World E} (r : RelayWithHardwareProof)
      → IsQuiet start v
      → IsAdmissible v r
      → IsAdmissible start r
  IsAdmissible-earlier r quiet a = record {
    is_new = a.is_new;
    proof = elim (a.proof) [
      | inl plain ↦ inl plain
      | inr (inl known) ↦ inr (inl known)
      | inr (inr (marked, p)) ↦ inr (
          inr (
            marked,
            record {
              examined = record {
                info = p.examined.info;
                has_info = p.examined.has_info;
                listed = p.examined.listed;
                table_eq = p.examined.table_eq;
                unknown = p.examined.unknown;
                before = p.examined.before;
                begun = IsQuiet-trans quiet p.examined.begun;
                existing = p.examined.existing;
                found = p.examined.found;
              };
              not_taken = p.not_taken;
              valid = p.valid;
            },
          ))
    ];
  }

  pub IsAdmissible-earlier_many :
      {start v : World E} (rs : List RelayWithHardwareProof)
      → IsQuiet start v
      → All (IsAdmissible v) rs
      → All (IsAdmissible start) rs
  IsAdmissible-earlier_many [] quiet a = tt
  IsAdmissible-earlier_many (r ∷ rs) quiet (a, more) =
      (IsAdmissible-earlier r quiet a, IsAdmissible-earlier_many rs quiet more)
