-- ===== src/Tasks/VerificationQueue.antt =====
-- src/tasks/processors/verification-queue.ts
pub mod Recovery
use operator_registry_contro.Prelude.{
  ℕ, zero, suc, Bool, true, false, ◌&&◌, Option, none, some, List, [], ◌∷◌, flatten, filter, length,
  eqb, Text, Result, ok, err, Action, ◌>>=◌, ◌>>◌, pure, try_catch,
}
use operator_registry_contro.Verification.Dto.{
  VerificationResultDto, VerificationData, VerificationRecovery,
}
use operator_registry_contro.Verification.Verify.{VerificationService, verify_relays}
use operator_registry_contro.Verification.Persist.{PersistenceService, persist_verification}
use operator_registry_contro.World.{World, Error}
use operator_registry_contro.Tasks.Site.{Site, Broker, recover_persist_verification, within, post}

abbrev pub max_upload_retries : ℕ
max_upload_retries = 3

pub data VerificationJob : Type 0 where
  job_verify_relays : List Text → VerificationJob
  job_confirm_verification : List (List VerificationResultDto) → VerificationJob
  job_persist_verification : List (List VerificationResultDto) → VerificationJob
  job_recover_persist_verification : VerificationRecovery → VerificationJob
  job_unknown : Text → VerificationJob

pub data VerificationOutcome : Type 0 where
  results : List VerificationResultDto → VerificationOutcome
  verification_data : VerificationData → VerificationOutcome
  undefined : VerificationOutcome

-- `!!fp && fp.length === 40`
abbrev pub is_valid_fingerprint : Text → Bool
is_valid_fingerprint fp = eqb (length fp) 40

module _ {E : Type 0} (v : VerificationService E) (x : PersistenceService E) (b : Broker E) where
  verify : List Text → Action (Site E) Error VerificationOutcome
  verify fingerprints = do
    verified ← within (verify_relays v (filter is_valid_fingerprint fingerprints))
    pure (results verified)

  -- `if (verificationData.validation_stats_tx.length > 0)`
  pub finish_or_retry :
      List VerificationResultDto
      → VerificationData
      → Text
      → Action (Site E) Error VerificationOutcome
  finish_or_retry rs d [] = do
    post b (
        recover_persist_verification (record {
          retries_left = max_upload_retries;
          verification_results = rs;
          verification_data = d;
        }))
    pure undefined
  finish_or_retry rs d (c ∷ stats) = pure (verification_data d)

  pub persist : List VerificationResultDto → Action (Site E) Error VerificationOutcome
  unfolding finish_or_retry
  persist [] = pure undefined
  persist (r ∷ rs) = do
    d ← within (persist_verification x (r ∷ rs) [] [])
    finish_or_retry (r ∷ rs) d d.validation_stats_tx

  retry_again : VerificationRecovery → ℕ → Action (Site E) Error VerificationOutcome
  retry_again recovery left = do
    post b (
        recover_persist_verification (record {
          retries_left = left;
          verification_results = recovery.verification_results;
          verification_data = recovery.verification_data;
        }))
    pure undefined

  -- `result.relay_metrics_tx.length > 0 && result.validation_stats_tx.length > 0`
  pub recovered_or_retry :
      VerificationRecovery
      → ℕ
      → VerificationData
      → Text
      → Text
      → Action (Site E) Error VerificationOutcome
  unfolding retry_again
  recovered_or_retry recovery left result (m ∷ metrics) (c ∷ stats) =
      pure (verification_data result)
  recovered_or_retry recovery left result _ _ = retry_again recovery left

  -- `retriesLeft > 0` is the first case's number, one more than what is left after it.
  pub recover_results :
      VerificationRecovery
      → ℕ
      → List VerificationResultDto
      → Action (Site E) Error VerificationOutcome
  unfolding recovered_or_retry
  recover_results recovery zero rs = pure undefined
  recover_results recovery (suc left) [] = pure undefined
  recover_results recovery (suc left) (r ∷ rs) = do
    result ← within (
        persist_verification x (r ∷ rs) recovery.verification_data.relay_metrics_tx
          recovery.verification_data.validation_stats_tx)
    recovered_or_retry recovery left result result.relay_metrics_tx result.validation_stats_tx

  -- `confirm-verification` only logs the results.
  unfoldable pub process : VerificationJob → Action (Site E) Error VerificationOutcome
  unfolding verify persist recover_results
  process (job_verify_relays fingerprints) =
      try_catch (verify fingerprints) (λ error. pure (results []))
  process (job_confirm_verification children) = pure (results (flatten children))
  process (job_persist_verification children) =
      try_catch (persist (flatten children)) (λ error. pure undefined)
  process (job_recover_persist_verification recovery) =
      try_catch (recover_results recovery recovery.retries_left recovery.verification_results)
        (λ error. pure undefined)
  process (job_unknown name) = pure undefined
