-- ===== src/Verification/Stats/Counts.antt =====
-- The statistics count and sum what they say.
use operator_registry_contro.Prelude.{
  ℕ, ◌+◌, ◌≡◌, Bool, true, ◌&&◌, ◌||◌, List, [], ◌∷◌, count, if◌then◌else◌,
}
use operator_registry_contro.Validation.Dto.{Double}
use operator_registry_contro.Verification.Dto.{
  is_failed, is_ok, is_already_registered, is_already_verified, EnrichedVerificationResult,
  RelayValidationStatsDto,
}
use operator_registry_contro.Verification.Stats.{Fractions}

-- The sum of a number over the relays that `p` picks.
abbrev pub sum_where :
    (EnrichedVerificationResult → Bool)
    → (EnrichedVerificationResult → ℕ)
    → List EnrichedVerificationResult
    → ℕ
sum_where p n [] = 0
sum_where p n (e ∷ es) = (if p e then n e else 0) + sum_where p n es

-- The sum of the machine's numbers over the relays in their order, with nought for those that `p` does
-- not pick.
abbrev pub fraction_where :
    Fractions
    → (EnrichedVerificationResult → Bool)
    → Double
    → List EnrichedVerificationResult
    → Double
fraction_where f p total [] = total
fraction_where f p total (e ∷ es) =
    fraction_where f p (f.add total (if p e then e.relay.consensus_weight_fraction else f.nought))
      es

-- A relay that was given 'OK' or 'AlreadyRegistered'.
abbrev pub unclaimed : EnrichedVerificationResult → Bool
unclaimed e = is_ok e.result || is_already_registered e.result

-- A relay that runs and was given 'AlreadyVerified'.
abbrev pub verified_running : EnrichedVerificationResult → Bool
verified_running e = is_already_verified e.result && e.relay.running

abbrev pub always : EnrichedVerificationResult → Bool
always e = true

-- How far the statistics `after` are from those `before`, by a description of the relays.
pub record Adds (f : Fractions) (before after : RelayValidationStatsDto)
    (es : List EnrichedVerificationResult) : Type 0 where
  pub weight :
      after.consensus_weight
      ≡ before.consensus_weight + sum_where always (λ e. e.relay.consensus_weight) es
  pub bandwidth :
      after.observed_bandwidth
      ≡ before.observed_bandwidth + sum_where always (λ e. e.relay.observed_bandwidth) es
  pub failed_eq :
      after.verification.failed ≡ before.verification.failed + count (λ e. is_failed e.result) es
  pub unclaimed_eq :
      after.verification.unclaimed ≡ before.verification.unclaimed + count unclaimed es
  pub verified_eq :
      after.verification.verified
      ≡ before.verification.verified + count (λ e. is_already_verified e.result) es
  pub running_eq :
      after.verification.running ≡ before.verification.running + count (λ e. e.relay.running) es
  pub running_weight :
      after.verified_and_running.consensus_weight
      ≡ before.verified_and_running.consensus_weight
        + sum_where verified_running (λ e. e.relay.consensus_weight) es
  pub running_bandwidth :
      after.verified_and_running.observed_bandwidth
      ≡ before.verified_and_running.observed_bandwidth
        + sum_where verified_running (λ e. e.relay.observed_bandwidth) es
  pub fraction :
      after.consensus_weight_fraction ≡ fraction_where f always before.consensus_weight_fraction es
  pub running_fraction :
      after.verified_and_running.consensus_weight_fraction
      ≡ fraction_where f verified_running before.verified_and_running.consensus_weight_fraction es
