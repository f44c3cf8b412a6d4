-- ===== src/Verification/Claimable/Verdicts.antt =====
-- The decision table of a batch, read off the relays alone: what kinds of relays there are, and how
-- the results and the relays to add are counted against them.
use operator_registry_contro.Prelude.{
  ◌+◌, ◌≡◌, Bool, true, false, not, ◌&&◌, Option, List, [], ◌∷◌, ◌++◌, Text, ◌==◌, includes, count,
  count-snoc, arith,
}
use operator_registry_contro.Validation.Dto.{RelayDataDto}
use operator_registry_contro.Verification.Dto.{
  RelayVerificationResult, result_ok, already_verified, already_registered, hardware_proof_failed,
  failed, already_set_family, ao_message_failed, is_failed, is_already_registered,
  is_already_verified,
}
use operator_registry_contro.Verification.Claimable.{
  ClaimableRelaysResult, dummy_address, push_result, push_relay,
}

abbrev pub is_hardware_proof_failed : RelayVerificationResult → Bool
is_hardware_proof_failed hardware_proof_failed = true
is_hardware_proof_failed _ = false

-- The results that no branch of the loop gives.
abbrev pub is_other : RelayVerificationResult → Bool
is_other result_ok = true
is_other already_set_family = true
is_other ao_message_failed = true
is_other _ = false

abbrev pub has_dummy_address : RelayDataDto → Bool
has_dummy_address relay = relay.any1_address == dummy_address

abbrev pub is_claimable_relay : List Text → RelayDataDto → Bool
is_claimable_relay claimable relay =
    not (has_dummy_address relay) && includes claimable relay.fingerprint

module _ (claimable verified : List Text) where
  abbrev pub is_verified_relay : RelayDataDto → Bool
  is_verified_relay relay =
      not (has_dummy_address relay)
      && not (includes claimable relay.fingerprint)
      && includes verified relay.fingerprint

  abbrev pub is_new_relay : RelayDataDto → Bool
  is_new_relay relay =
      not (has_dummy_address relay)
      && not (includes claimable relay.fingerprint)
      && not (includes verified relay.fingerprint)

  -- For the fingerprints that `q` picks: every result has its relays, and every relay has its result
  -- or is put among those to add.
  pub record IsTallied (q : Text → Bool) (seen : List RelayDataDto) (l : ClaimableRelaysResult)
      : Type 0 where
    pub failed_eq :
        count (λ r. is_failed r.result && q r.fingerprint) l.results
        ≡ count (λ relay. has_dummy_address relay && q relay.fingerprint) seen
    pub registered_eq :
        count (λ r. is_already_registered r.result && q r.fingerprint) l.results
        ≡ count (λ relay. is_claimable_relay claimable relay && q relay.fingerprint) seen
    pub verified_eq :
        count (λ r. is_already_verified r.result && q r.fingerprint) l.results
        ≡ count (λ relay. is_verified_relay relay && q relay.fingerprint) seen
    pub new_eq :
        count (λ r. is_hardware_proof_failed r.result && q r.fingerprint) l.results
          + count (λ r. q r.relay.fingerprint) l.relays_to_add_as_claimable
        ≡ count (λ relay. is_new_relay relay && q relay.fingerprint) seen
    pub other_eq : count (λ r. is_other r.result) l.results ≡ 0

  -- The relays that a result is given to.
  abbrev pub Deserves : RelayDataDto → RelayVerificationResult → Type 0
  Deserves relay failed = has_dummy_address relay ≡ true
  Deserves relay already_registered = is_claimable_relay claimable relay ≡ true
  Deserves relay already_verified = is_verified_relay relay ≡ true
  Deserves relay hardware_proof_failed = is_new_relay relay ≡ true
  Deserves relay _ = ⊥

module _ (claimable verified : List Text) (q : Text → Bool) {seen : List RelayDataDto}
    {l : ClaimableRelaysResult} (relay : RelayDataDto)
    (t : IsTallied claimable verified q seen l) where
  pub push_result-IsTallied :
      (result : RelayVerificationResult)
      → Deserves claimable verified relay result
      → IsTallied claimable verified q (seen ++ relay ∷ []) (push_result relay result l)
  push_result-IsTallied failed d = record {
    failed_eq = simp count-snoc (ground (arith, t.failed_eq));
    registered_eq = simp count-snoc (ground (arith, t.registered_eq));
    verified_eq = simp count-snoc (ground (arith, t.verified_eq));
    new_eq = simp count-snoc (ground (arith, t.new_eq));
    other_eq = simp count-snoc (ground (arith, t.other_eq));
  }
  push_result-IsTallied _ d = record {
    failed_eq = simp count-snoc (ground (arith, t.failed_eq));
    registered_eq = simp count-snoc (ground (arith, t.registered_eq));
    verified_eq = simp count-snoc (ground (arith, t.verified_eq));
    new_eq = simp count-snoc (ground (arith, t.new_eq));
    other_eq = simp count-snoc (ground (arith, t.other_eq));
  }

  pub push_relay-IsTallied :
      (proof : Option Bool)
      → is_new_relay claimable verified relay ≡ true
      → IsTallied claimable verified q (seen ++ relay ∷ []) (push_relay relay proof l)
  push_relay-IsTallied proof d = record {
    failed_eq = simp count-snoc (ground (arith, t.failed_eq));
    registered_eq = simp count-snoc (ground (arith, t.registered_eq));
    verified_eq = simp count-snoc (ground (arith, t.verified_eq));
    new_eq = simp count-snoc (ground (arith, t.new_eq));
    other_eq = t.other_eq;
  }
