-- ===== src/Verification/Verify/Results.antt =====
-- `verifyRelays` as a whole.
use operator_registry_contro.Prelude.{
  ◌≡◌, refl, sym, subst, true, Option, List, Text, text, Result, ok, err, Action, Ensures, continue,
  ◌>>=◌,
}
use operator_registry_contro.Verification.Dto.{VerificationResultDto}
use operator_registry_contro.Verification.Claimable.{
  ClaimableRelaysResult, get_relays_to_add_as_claimable,
}
use operator_registry_contro.Verification.Claimable.Whole.{
  IsClassified, get_relays_to_add_as_claimable-IsClassified,
}
use operator_registry_contro.OperatorRegistry.{
  OperatorRegistryState, Property, get_operator_registry_state,
}
use operator_registry_contro.OperatorRegistry.State.{get_operator_registry_state-IsQuiet}
use operator_registry_contro.World.{World, Error, IsQuiet, IsQuiet-trans}
use operator_registry_contro.Verification.Verify.{
  VerificationService, live, lift, property, keys, submit, after_read, verify_relays,
}
use operator_registry_contro.Verification.Verify.Submits.{Posted, chunks_of, submit-HasPosted}

module _ {E : Type 0} (x : VerificationService E) (signer : x.registry.has_signer ≡ true) where
  -- The registry was read, the stored relays that were asked for were sorted by what it says, and the
  -- relays to add were posted in chunks if the service is live. The results are those of the sorting.
  pub record IsVerified (fingerprints : List Text) (start : World E)
      (results : List VerificationResultDto) (w : World E) : Type 0 where
    pub state : OperatorRegistryState
    pub read : (get_operator_registry_state x.registry start).0 ≡ ok state
    pub claimable : List Text
    pub claimable_eq :
        keys (property (text "ClaimableFingerprintsToOperatorAddresses") state) ≡ ok claimable
    pub verified : List Text
    pub verified_eq :
        keys (property (text "VerifiedFingerprintsToOperatorAddresses") state) ≡ ok verified
    pub begun : World E
    pub begun_quiet : IsQuiet start begun
    pub sorted : ClaimableRelaysResult
    pub ended : World E
    pub classified :
        IsClassified x.hardware claimable verified
          (property (text "VerifiedHardwareFingerprints") state)
          x.store
          begun
          fingerprints
          sorted
          ended
    pub results_eq : results ≡ sorted.results
    pub posted :
        Posted x.registry
          (chunks_of x signer (live x.is_live) sorted.relays_to_add_as_claimable)
          start.sent
          w.sent

  module _ (fingerprints : List Text) (start : World E) where
    abbrev Done : Result Error (List VerificationResultDto) → World E → Type 0
    Done = Ensures (IsVerified fingerprints start) (IsQuiet start)

    module _ (state : OperatorRegistryState) (w : World E) (quiet : IsQuiet start w)
        (read : (get_operator_registry_state x.registry start).0 ≡ ok state) where
      abbrev table : Option Property
      table = property (text "VerifiedHardwareFingerprints") state

      module _ (claimable verified : List Text)
          (claimable_eq : keys (property (text "ClaimableFingerprintsToOperatorAddresses") state)
            ≡ ok claimable)
          (verified_eq : keys (property (text "VerifiedFingerprintsToOperatorAddresses") state)
            ≡ ok verified) where
        -- The relays are sorted, and what is to add is submitted.
        submitted :
            (r : Result Error ClaimableRelaysResult) (v : World E)
            → Ensures
                (IsClassified x.hardware claimable verified table x.store w fingerprints)
                (IsQuiet w)
                r
                v
            → Done (continue r (submit x) v).0 (continue r (submit x) v).1
        submitted (err e) v q = IsQuiet-trans quiet q
        submitted (ok l) v c =
            let p = submit-HasPosted x signer l v in
            let sent = IsQuiet-trans quiet c.sorted.quiet in
            subst (λ r. Done r (submit x l v).1) (sym p.returned)
              (record {
                state = state;
                read = read;
                claimable = claimable;
                claimable_eq = claimable_eq;
                verified = verified;
                verified_eq = verified_eq;
                begun = w;
                begun_quiet = quiet;
                sorted = l;
                ended = v;
                classified = c;
                results_eq = refl;
                posted =
                    subst
                      (λ t.
                        Posted x.registry
                          (chunks_of x signer (live x.is_live) l.relays_to_add_as_claimable) t
                          (submit x l v).1.sent)
                      sent.sent_eq p.posted;
              })

      abbrev sort_and_submit :
          List Text → List Text → Action (World E) Error (List VerificationResultDto)
      sort_and_submit claimable verified =
          get_relays_to_add_as_claimable x.hardware claimable verified table x.store fingerprints
          >>= submit x

      verified_listed :
          (claimable : List Text)
          → keys (property (text "ClaimableFingerprintsToOperatorAddresses") state) ≡ ok claimable
          → (r : Result Error (List Text))
          → keys (property (text "VerifiedFingerprintsToOperatorAddresses") state) ≡ r
          → Done
              (continue r (sort_and_submit claimable) w).0
              (continue r (sort_and_submit claimable) w).1
      verified_listed claimable e (err t) e' = quiet
      verified_listed claimable e (ok verified) e' =
          submitted claimable verified e e'
            (get_relays_to_add_as_claimable x.hardware claimable verified table x.store fingerprints
              w).0
            (get_relays_to_add_as_claimable x.hardware claimable verified table x.store fingerprints
              w).1
            (get_relays_to_add_as_claimable-IsClassified x.hardware claimable verified table x.store
              w fingerprints)

      claimable_listed :
          (r : Result Error (List Text))
          → keys (property (text "ClaimableFingerprintsToOperatorAddresses") state) ≡ r
          → Done
              (continue r
                (λ claimable.
                  lift x (keys (property (text "VerifiedFingerprintsToOperatorAddresses") state))
                  >>= sort_and_submit claimable)
                w).0
              (continue r
                (λ claimable.
                  lift x (keys (property (text "VerifiedFingerprintsToOperatorAddresses") state))
                  >>= sort_and_submit claimable)
                w).1
      claimable_listed (err t) e = quiet
      claimable_listed (ok claimable) e = verified_listed claimable e _ refl

    state_read :
        (r : Result Error OperatorRegistryState) (v : World E)
        → (get_operator_registry_state x.registry start).0 ≡ r
        → IsQuiet start v
        → Done
            (continue r (after_read x fingerprints) v).0
            (continue r (after_read x fingerprints) v).1
    unfolding after_read
    state_read (err t) v e quiet = quiet
    state_read (ok state) v e quiet = claimable_listed state v quiet e _ refl

    -- If the run of a service with a signer returns, the stored relays that were asked for are classified by
    -- the registry's state that it read, its results are those of the classification, and what it posted are
    -- the relays to add. If it throws, nothing was sent or uploaded, and the stored relays, the known
    -- devices and the records of verifications are as they were; verified hardware and failures of hardware
    -- proofs, which it stores relay by relay, may have been added.
    pub verify_relays-IsVerified :
        Done (verify_relays x fingerprints start).0 (verify_relays x fingerprints start).1
    unfolding verify_relays
    verify_relays-IsVerified =
        state_read (get_operator_registry_state x.registry start).0
          (get_operator_registry_state x.registry start).1 refl
          (get_operator_registry_state-IsQuiet x.registry start)
