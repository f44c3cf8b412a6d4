-- ===== src/Verification/Verify/Outcomes.antt =====
-- What follows for the results that `verifyRelays` returns and for the relays that it posts.
use operator_registry_contro.Prelude.{
  ◌≤◌, ◌≡◌, refl, sym, subst, Bool, true, false, List, [], ◌∷◌, Text, text, count, All, flatten,
  length, Result, ok, err, Ensures, inl, inr, ◌⊎◌,
}
use operator_registry_contro.Verification.Dto.{VerificationResultDto}
use operator_registry_contro.Verification.Claimable.Verdicts.{is_other}
use operator_registry_contro.Verification.Claimable.Reasons.{
  IsAdmissible, IsAdmissible-earlier_many,
}
use operator_registry_contro.OperatorRegistry.{
  OperatorRegistryState, RelayWithHardwareProof, get_operator_registry_state,
}
use operator_registry_contro.World.{World, Error, IsQuiet}
use operator_registry_contro.Verification.Verify.{
  VerificationService, live, property, keys, verify_relays,
}
use operator_registry_contro.Verification.Verify.Submits.{Posted, chunks_of}
use operator_registry_contro.Verification.Verify.Results.{IsVerified, verify_relays-IsVerified}

module _ {E : Type 0} (x : VerificationService E) (signer : x.registry.has_signer ≡ true)
    (fingerprints : List Text) (start : World E) where
  -- If the run of a service with a signer returns, no result in it is 'OK' or another that only the submission gives: the results of
  -- the submission are lost.
  pub verify_relays-lost :
      Ensures
        (λ results w. count (λ (r : VerificationResultDto). is_other r.result) results ≡ 0)
        (λ w. Unit)
        (verify_relays x fingerprints start).0
        (verify_relays x fingerprints start).1
  verify_relays-lost =
      Ensures-imp (verify_relays x fingerprints start).0 (verify_relays x fingerprints start).1
        (verify_relays-IsVerified x signer fingerprints start)
    where
      Ensures-imp :
          (r : Result Error (List VerificationResultDto)) (w : World E)
          → Ensures (IsVerified x signer fingerprints start) (IsQuiet start) r w
          → Ensures
              (λ results w. count (λ (r : VerificationResultDto). is_other r.result) results ≡ 0)
              (λ w. Unit)
              r
              w
      Ensures-imp (ok rs) w v =
          subst (λ rs. count (λ (r : VerificationResultDto). is_other r.result) rs ≡ 0)
            (sym v.results_eq) (v.classified.sorted.tallied (λ t. true)).other_eq
      Ensures-imp (err e) w q = tt

  chunks_flatten :
      (on : Bool) (relays : List RelayWithHardwareProof)
      → (flatten (chunks_of x signer on relays) ≡ relays) ⊎ (chunks_of x signer on relays ≡ [])
  chunks_flatten false relays = inr refl
  chunks_flatten true [] = inr refl
  chunks_flatten true (relay ∷ relays) = inl (x.flatten-chunk (relay ∷ relays) 99)

  chunks_length :
      (on : Bool) (relays : List RelayWithHardwareProof)
      → All (λ (c : List RelayWithHardwareProof). length c ≤ 100) (chunks_of x signer on relays)
  chunks_length false relays = tt
  chunks_length true [] = tt
  chunks_length true (relay ∷ relays) = x.length-chunk (relay ∷ relays) 99

  -- What the run sent: chunks of at most 100 relays, at most three copies of each, with new relays only,
  -- whose hardware, if any, is known to the registry or was proved.
  pub record IsSafelyPosted (v : World E) : Type 0 where
    pub state : OperatorRegistryState
    pub read : (get_operator_registry_state x.registry start).0 ≡ ok state
    pub claimable : List Text
    pub claimable_eq :
        keys (property (text "ClaimableFingerprintsToOperatorAddresses") state) ≡ ok claimable
    pub verified : List Text
    pub verified_eq :
        keys (property (text "VerifiedFingerprintsToOperatorAddresses") state) ≡ ok verified
    pub chunks : List (List RelayWithHardwareProof)
    pub posted : Posted x.registry chunks start.sent v.sent
    pub small : All (λ (c : List RelayWithHardwareProof). length c ≤ 100) chunks
    pub admissible :
        All
          (IsAdmissible x.hardware claimable verified
            (property (text "VerifiedHardwareFingerprints") state)
            start)
          (flatten chunks)
    pub only_live : live x.is_live ≡ false → chunks ≡ []

  verified-IsSafelyPosted :
      (results : List VerificationResultDto) (w : World E)
      → IsVerified x signer fingerprints start results w
      → IsSafelyPosted w
  verified-IsSafelyPosted results w v = record {
    state = v.state;
    read = v.read;
    claimable = v.claimable;
    claimable_eq = v.claimable_eq;
    verified = v.verified;
    verified_eq = v.verified_eq;
    chunks = chunks_of x signer (live x.is_live) v.sorted.relays_to_add_as_claimable;
    posted = v.posted;
    small = chunks_length (live x.is_live) v.sorted.relays_to_add_as_claimable;
    admissible = elim (chunks_flatten (live x.is_live) v.sorted.relays_to_add_as_claimable) [
      | inl all ↦
          subst
            (All (
              IsAdmissible x.hardware v.claimable v.verified
                (property (text "VerifiedHardwareFingerprints") v.state) start))
            (sym all)
            (IsAdmissible-earlier_many x.hardware v.claimable v.verified
              (property (text "VerifiedHardwareFingerprints") v.state)
              v.sorted.relays_to_add_as_claimable v.begun_quiet v.classified.sorted.admissible)
      | inr none_posted ↦
          subst
            (λ cs.
              All
                (IsAdmissible x.hardware v.claimable v.verified
                  (property (text "VerifiedHardwareFingerprints") v.state) start)
                (flatten cs))
            (sym none_posted) tt
    ];
    only_live = λ off. rw off;
  }

  -- If the run of a service with a signer returns, it sent chunks of at most 100 relays, at most three copies of each, of relays that
  -- are admissible by the registry's state, and none if it is not live; if it throws, it sent nothing.
  pub verify_relays-IsSafelyPosted :
      Ensures
        (λ results w. IsSafelyPosted w)
        (λ w. w.sent ≡ start.sent)
        (verify_relays x fingerprints start).0
        (verify_relays x fingerprints start).1
  verify_relays-IsSafelyPosted =
      go (verify_relays x fingerprints start).0 (verify_relays x fingerprints start).1
        (verify_relays-IsVerified x signer fingerprints start)
    where
      go :
          (r : Result Error (List VerificationResultDto)) (w : World E)
          → Ensures (IsVerified x signer fingerprints start) (IsQuiet start) r w
          → Ensures (λ results w. IsSafelyPosted w) (λ w. w.sent ≡ start.sent) r w
      go (ok rs) w v = verified-IsSafelyPosted rs w v
      go (err e) w q = q.sent_eq
