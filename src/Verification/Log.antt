-- ===== src/Verification/Log.antt =====
-- `logVerification` of src/verification/verification.service.ts: what it writes to the log, message by message.
use operator_registry_contro.Prelude.{
  ℕ, Bool, true, false, List, [], ◌∷◌, ◌++◌, map, Text, filter, length, ltb, if◌then◌else◌,
}
use operator_registry_contro.Verification.Dto.{
  RelayVerificationResult, hardware_proof_failed, ao_message_failed, already_set_family,
  VerificationResultDto, is_ok, is_already_verified, is_already_registered, is_failed,
}

-- The messages, with the fingerprints that they list or the number that they name.
pub data LogEntry : Type 0 where
  failed_verification : List Text → LogEntry
  failed_hardware_verification : List Text → LogEntry
  failed_ao_message : List Text → LogEntry
  skipped_registered : ℕ → LogEntry
  skipped_verified : ℕ → LogEntry
  registered : ℕ → LogEntry
  total_verified : ℕ → LogEntry

abbrev pub is_hardware_proof_failed : RelayVerificationResult → Bool
is_hardware_proof_failed hardware_proof_failed = true
is_hardware_proof_failed _ = false

abbrev pub is_ao_message_failed : RelayVerificationResult → Bool
is_ao_message_failed ao_message_failed = true
is_ao_message_failed _ = false

abbrev pub is_already_set_family : RelayVerificationResult → Bool
is_already_set_family already_set_family = true
is_already_set_family _ = false

-- `data.filter(value => value.result === ...)`
abbrev pub with_result :
    (RelayVerificationResult → Bool) → List VerificationResultDto → List VerificationResultDto
with_result p results = filter (λ r. p r.result) results

abbrev pub fingerprints_of : List VerificationResultDto → List Text
fingerprints_of results = map (λ r. r.fingerprint) results

-- `if (list.length > 0)`
unfoldable pub when_any : ℕ → LogEntry → List LogEntry
when_any n entry = if ltb 0 n then entry ∷ [] else []

unfoldable pub log_verification : List VerificationResultDto → List LogEntry
unfolding when_any
log_verification results =
    let failures = with_result is_failed results in
    let hardware_failed = with_result is_hardware_proof_failed results in
    let ao_failed = with_result is_ao_message_failed results in
    let claimable = length (with_result is_already_registered results) in
    let already_verified = length (with_result is_already_verified results) in
    let ok_results = length (with_result is_ok results) in
    when_any (length failures) (failed_verification (fingerprints_of failures))
    ++ (when_any (length hardware_failed)
          (failed_hardware_verification (fingerprints_of hardware_failed))
        ++ (when_any (length ao_failed) (failed_ao_message (fingerprints_of ao_failed))
            ++ (when_any claimable (skipped_registered claimable)
                ++ (when_any already_verified (skipped_verified already_verified)
                    ++ (when_any ok_results (registered ok_results)
                        ++ total_verified already_verified ∷ [])))))
