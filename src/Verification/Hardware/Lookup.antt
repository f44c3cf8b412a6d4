-- ===== src/Verification/Hardware/Lookup.antt =====
-- Verified hardware is searched by the serial in lower case, and stored with the serial as the relay sent it
-- (src/verification/hardware-verification.service.ts).
use operator_registry_contro.Prelude.{
  ℕ, ◌<◌, ◌≡◌, ◌≢◌, refl, ◌∙◌, sym, ap, subst, Bool, true, false, Option, none, some, Text, text,
  ◌==◌, ==_iff, lower, All, count, count-snoc, Bool-cases, inl, inr, arith, ok,
}
use operator_registry_contro.Prelude.Numbers.{ℤ}
use operator_registry_contro.Validation.Dto.{RelayDataDto, RelayHardwareInfo}
use operator_registry_contro.Verification.Claimable.{number_of_type}
use operator_registry_contro.Verification.Dto.{VerifiedHardware}
use operator_registry_contro.Verification.Hardware.Documents.{to_document, to_draft}
use operator_registry_contro.Verification.Hardware.Proof.{
  HardwareVerificationService, get_verified_hardware_by_atec_serial, find_verified_hardware,
  is_hardware_proof_valid,
}
use operator_registry_contro.Verification.Hardware.Soundness.{is_hardware_proof_valid-true}
use operator_registry_contro.World.{World, as_error-ok}

some-injective : {A : Type 0} {a b : A} → some a ≡ some b → a ≡ b
some-injective h = cc

module _ {E : Type 0} (x : HardwareVerificationService E) where
  -- What the search for a serial matches.
  abbrev pub has_serial : Text → VerifiedHardware → Bool
  has_serial serial d = d.atec_serial == x.to_lower_case serial

  found-none :
      (serial : Text) (w : World E) (found : Option VerifiedHardware)
      → count (has_serial serial) w.verified_hardware ≡ 0
      → (x.verified_hardware_model.find_one (has_serial serial) w.verified_hardware w.env).0
        ≡ ok found
      → found ≡ none
  found-none serial w none absent h = refl
  found-none serial w (some d) absent h =
      let (hit, seen) =
        x.verified_hardware_model.find_one_some (has_serial serial) w.verified_hardware w.env d h in
      absurd (omega (arith, seen (has_serial serial) hit, absent))

  document_missed :
      (relay : RelayDataDto) (info : RelayHardwareInfo) (serial : Text) (n : ℤ) (t : ℕ)
      → number_of_type (text "ATEC") info.ser_nums ≡ some serial
      → All (λ c. c < 128) serial
      → lower serial ≢ serial
      → has_serial serial (to_document (to_draft relay info n t)) ≡ false
  unfolding to_document to_draft
  document_missed relay info serial n t given ascii capital =
      elim (Bool-cases (serial == x.to_lower_case serial)) [
        | inl same ↦ absurd (
            capital (
              sym (x.to_lower_case_ascii serial ascii)
              ∙ sym ((==_iff serial (x.to_lower_case serial)).0 same)))
        | inr other ↦ rw given other
      ]

  -- Suppose a relay's hardware proof is found valid, its ATEC serial is in ASCII and has a capital letter,
  -- and no verified hardware had matched the search for that serial. Then the search for the very same
  -- serial, in the state that the check leaves, still finds nothing, if it returns: the document that the
  -- check has just added is not found.
  pub get_verified_hardware_by_atec_serial-none :
      (relay : RelayDataDto) (info : RelayHardwareInfo) (serial : Text) (w : World E)
      (found : Option VerifiedHardware)
      → relay.hardware_info ≡ some info
      → number_of_type (text "ATEC") info.ser_nums ≡ some serial
      → All (λ c. c < 128) serial
      → lower serial ≢ serial
      → count (has_serial serial) w.verified_hardware ≡ 0
      → (is_hardware_proof_valid x relay w).0 ≡ ok true
      → (get_verified_hardware_by_atec_serial x
          (some serial)
          (is_hardware_proof_valid x relay w).1).0
        ≡ ok found
      → found ≡ none
  unfolding get_verified_hardware_by_atec_serial find_verified_hardware
  get_verified_hardware_by_atec_serial-none relay info serial w found has given ascii capital absent
        valid answered =
      let (info', has', (n, evidence, t, complete, added, same)) =
        is_hardware_proof_valid-true x relay w valid in
      let missed : has_serial serial (to_document (to_draft relay info' n t)) ≡ false =
        document_missed relay info' serial n t
          (subst (λ i. number_of_type (text "ATEC") i.ser_nums ≡ some serial)
            (some-injective (sym has ∙ has')) given)
          ascii capital in
      found-none serial (is_hardware_proof_valid x relay w).1 found
        (ap (count (has_serial serial)) added
          ∙ count-snoc (has_serial serial) w.verified_hardware
              (to_document (to_draft relay info' n t))
          ∙ rw missed (omega (arith, absent)))
        (as_error-ok
          (x.verified_hardware_model.find_one (has_serial serial)
            (is_hardware_proof_valid x relay w).1.verified_hardware
            (is_hardware_proof_valid x relay w).1.env).0
          answered)
