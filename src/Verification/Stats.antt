-- ===== src/Verification/Stats.antt =====
-- `getValidationStats` of src/verification/verification.service.ts. Fractions are added by the machine:
-- the addition and the zero of IEEE 754 are parameters.
pub mod Counts
use operator_registry_contro.Prelude.{ℕ, ◌+◌, Bool, ◌&&◌, ◌||◌, List, [], ◌∷◌, if◌then◌else◌}
use operator_registry_contro.Validation.Dto.{Double, RelayDataDto}
use operator_registry_contro.Verification.Dto.{
  is_ok, is_already_verified, is_already_registered, is_failed, EnrichedVerificationResult,
  RelayVerificationResultsDto, ValidationStatsDto, RelayValidationStatsDto,
}

pub record Fractions : Type 0 where
  pub add : Double → Double → Double
  pub nought : Double

abbrev pub is_unclaimed : EnrichedVerificationResult → Bool
is_unclaimed e = is_ok e.result || is_already_registered e.result

abbrev pub is_verified : EnrichedVerificationResult → Bool
is_verified e = is_already_verified e.result

abbrev pub is_verified_and_running : EnrichedVerificationResult → Bool
is_verified_and_running e = is_already_verified e.result && e.relay.running

module _ (f : Fractions) where
  pub initial : RelayValidationStatsDto
  initial = record {
    consensus_weight = 0;
    consensus_weight_fraction = f.nought;
    observed_bandwidth = 0;
    verification = record { failed = 0; unclaimed = 0; verified = 0; running = 0 };
    verified_and_running = record {
      consensus_weight = 0;
      observed_bandwidth = 0;
      consensus_weight_fraction = f.nought;
    };
  }

  -- the callback of `reduce`
  pub add_relay : RelayValidationStatsDto → EnrichedVerificationResult → RelayValidationStatsDto
  add_relay previous current = record {
    consensus_weight = previous.consensus_weight + current.relay.consensus_weight;
    consensus_weight_fraction =
        f.add previous.consensus_weight_fraction current.relay.consensus_weight_fraction;
    observed_bandwidth = previous.observed_bandwidth + current.relay.observed_bandwidth;
    verification = record {
      failed = previous.verification.failed + (if is_failed current.result then 1 else 0);
      unclaimed = previous.verification.unclaimed + (if is_unclaimed current then 1 else 0);
      verified = previous.verification.verified + (if is_verified current then 1 else 0);
      running = previous.verification.running + (if current.relay.running then 1 else 0);
    };
    verified_and_running = record {
      consensus_weight =
          previous.verified_and_running.consensus_weight
          + (if is_verified_and_running current then current.relay.consensus_weight else 0);
      observed_bandwidth =
          previous.verified_and_running.observed_bandwidth
          + (if is_verified_and_running current then current.relay.observed_bandwidth else 0);
      consensus_weight_fraction = f.add previous.verified_and_running.consensus_weight_fraction (
          if is_verified_and_running current
          then current.relay.consensus_weight_fraction
          else f.nought);
    };
  }

  pub reduce_stats :
      RelayValidationStatsDto → List EnrichedVerificationResult → RelayValidationStatsDto
  unfolding add_relay
  reduce_stats previous [] = previous
  reduce_stats previous (e ∷ es) = reduce_stats (add_relay previous e) es

  unfoldable pub get_validation_stats : List EnrichedVerificationResult → RelayValidationStatsDto
  unfolding reduce_stats initial
  get_validation_stats enriched = reduce_stats initial enriched
