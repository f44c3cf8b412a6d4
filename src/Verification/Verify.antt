-- ===== src/Verification/Verify.antt =====
-- `verifyRelays` of src/verification/verification.service.ts. `_.chunk` of the package lodash is a
-- parameter with what its documentation says: the chunks are the list cut in order, and none is
-- longer than the size.
pub mod Submits
pub mod Results
pub mod Outcomes
pub mod Devices
use operator_registry_contro.Prelude.{
  ℕ, zero, suc, ◌+◌, ◌/◌, ◌%◌, ◌≤◌, ◌≡◌, Bool, true, false, Option, none, some, List, [], ◌∷◌, ◌++◌,
  map, flatten, length, All, Text, text, ◌==◌, is_empty, if◌then◌else◌, ltb, Result, ok, err,
  Action, ◌>>=◌, ◌>>◌, pure, throw, try_catch,
}
use operator_registry_contro.Validation.RelayInfoService.{RelayInfoStore}
use operator_registry_contro.Verification.Dto.{
  RelayVerificationResult, result_ok, ao_message_failed, failed, VerificationResultDto,
}
use operator_registry_contro.Verification.HardwareService.{HardwareService}
use operator_registry_contro.Verification.Claimable.{
  ClaimableRelaysResult, get_relays_to_add_as_claimable,
}
use operator_registry_contro.OperatorRegistry.{
  Scalar, Property, object, array, OperatorRegistryState, RelayWithHardwareProof, SubmitResult,
  OperatorRegistry, get_operator_registry_state, admin_submit_operator_certificates,
}
use operator_registry_contro.World.{World, Error, type_error, sleep}

pub record VerificationService (E : Type 0) : Type 0 where
  pub is_live : Option Text
  pub hardware : HardwareService E
  pub registry : OperatorRegistry E
  pub store : RelayInfoStore E
  pub chunk : List RelayWithHardwareProof → ℕ → List (List RelayWithHardwareProof)
  pub flatten-chunk : (rs : List RelayWithHardwareProof) (n : ℕ) → flatten (chunk rs (suc n)) ≡ rs
  pub length-chunk :
      (rs : List RelayWithHardwareProof) (n : ℕ)
      → All (λ (c : List RelayWithHardwareProof). length c ≤ suc n) (chunk rs (suc n))

-- `this.isLive === 'true'`
unfoldable pub live : Option Text → Bool
live none = false
live (some value) = value == text "true"

pub property : Text → OperatorRegistryState → Option Property
property name [] = none
property name ((n, p) ∷ state) = if n == name then some p else property name state

-- The decimal digits of an index, on fuel.
digits : ℕ → ℕ → Text
digits zero n = []
digits (suc fuel) n =
    let more = digits fuel (n / 10) in
    if ltb n 10 then (b'0' + n) ∷ [] else more ++ (b'0' + n % 10) ∷ []

index_keys : ℕ → List Scalar → List Text
unfolding digits
index_keys i [] = []
index_keys i (s ∷ ss) = digits (suc i) i ∷ index_keys (suc i) ss

-- `Object.keys(p)`
pub keys : Option Property → Result Error (List Text)
unfolding index_keys
keys none = err type_error
keys (some (object table)) = ok (map (λ (e : Text × Scalar). e.0) table)
keys (some (array items)) = ok (index_keys 0 items)

-- `chunk.map(({ relay }) => ({ fingerprint: relay.fingerprint, result }))`
pub results_of : RelayVerificationResult → List RelayWithHardwareProof → List VerificationResultDto
results_of result chunk =
    map (λ r. record { result = result; fingerprint = r.relay.fingerprint }) chunk

module _ {E : Type 0} (x : VerificationService E) where
  abbrev pub lift : {A : Type 0} → Result Error A → Action (World E) Error A
  lift r w = (r, w)

  -- `results.concat(...)` returns a new array, which the loop drops: `results` stays as it is.
  pub after_submit :
      List RelayWithHardwareProof
      → SubmitResult
      → List VerificationResultDto
      → List VerificationResultDto
  unfolding results_of
  after_submit chunk submitted results =
      let dropped =
        results ++ results_of (if submitted.success then result_ok else ao_message_failed) chunk in
      results

  -- `for (const chunk of chunks)`
  pub submit_chunks :
      List (List RelayWithHardwareProof)
      → List VerificationResultDto
      → Action (World E) Error (List VerificationResultDto)
  unfolding after_submit
  submit_chunks [] results = pure results
  submit_chunks (chunk ∷ chunks) results = do
    sleep 2345
    submitted ← admin_submit_operator_certificates x.registry chunk
    submit_chunks chunks (after_submit chunk submitted results)

  -- the `try` block: `_.chunk` of no relays is no chunk
  pub submit : ClaimableRelaysResult → Action (World E) Error (List VerificationResultDto)
  unfolding submit_chunks results_of
  submit l =
      if live x.is_live
      then try_catch
          (elim l.relays_to_add_as_claimable [
            | [] ↦ pure l.results
            | relay ∷ relays ↦ submit_chunks (x.chunk l.relays_to_add_as_claimable 100) l.results
          ])
          (λ error. pure (l.results ++ results_of failed l.relays_to_add_as_claimable))
      else pure l.results

  -- what follows the reading of the registry
  pub after_read :
      List Text → OperatorRegistryState → Action (World E) Error (List VerificationResultDto)
  unfolding submit live property keys
  after_read fingerprints state = do
    claimable ← lift (keys (property (text "ClaimableFingerprintsToOperatorAddresses") state))
    verified ← lift (keys (property (text "VerifiedFingerprintsToOperatorAddresses") state))
    l ←
        get_relays_to_add_as_claimable x.hardware claimable verified
          (property (text "VerifiedHardwareFingerprints") state) x.store fingerprints
    submit l

  unfoldable pub verify_relays : List Text → Action (World E) Error (List VerificationResultDto)
  unfolding after_read
  verify_relays fingerprints = do
    state ← get_operator_registry_state x.registry
    after_read fingerprints state
