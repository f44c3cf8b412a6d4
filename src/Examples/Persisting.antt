-- ===== src/Examples/Persisting.antt =====
-- The theorems on the persisting of results and on the jobs, where uploads of statistics fail.
use operator_registry_contro.Prelude.{
  ℕ, ◌≡◌, refl, ◌⊎◌, Bool, false, List, [], ◌∷◌, text, ok, count, includes, text_eq,
}
use operator_registry_contro.Examples.Services.{
  store, persistence_service, verification_service, broker, world, empty_world, site,
}
use operator_registry_contro.Validation.Dto.{RelayInfo}
use operator_registry_contro.Validation.RelayInfoService.{
  get_by_fingerprints, to_relay_data_dto, delete_all,
}
use operator_registry_contro.Verification.Dto.{
  VerificationResultDto, already_verified, VerificationRecovery,
}
use operator_registry_contro.Verification.Verify.{live}
use operator_registry_contro.Verification.Persist.{persist_verification}
use operator_registry_contro.Verification.Persist.Recovery.{
  HasFailed, persist_verification-HasFailed, persist_verification-clean,
}
use operator_registry_contro.Tasks.Site.{Site, count_jobs}
use operator_registry_contro.Tasks.TasksService.{active_jobs, queue_validate_relays}
use operator_registry_contro.Tasks.TasksService.Single.{IsSingle, queue_validate_relays-IsSingle}
use operator_registry_contro.Tasks.VerificationQueue.{
  process, job_persist_verification, job_recover_persist_verification,
}
use operator_registry_contro.Tasks.VerificationQueue.Recovery.{
  IsIdle, Retries, persist-recovery-IsIdle, recover_persist-Retries,
}
use operator_registry_contro.World.Collection.{memory}

abbrev result : VerificationResultDto
result = record { result = already_verified; fingerprint = text "A" }

abbrev recovery : VerificationRecovery
recovery = record {
  retries_left = 3;
  verification_results = result ∷ [];
  verification_data = record {
    verified_at = 0;
    relay_metrics_tx = text "m";
    validation_stats_tx = [];
  };
}

abbrev site_with_recovery : Site ℕ
site_with_recovery =
    (process verification_service persistence_service broker
      (job_persist_verification ((result ∷ []) ∷ [])) site).1

deletes :
    (p : RelayInfo → Bool) (ds : List RelayInfo) (e : ℕ)
    → (n : ℕ) × ((store.relay_info_model.delete_many p ds e).0 ≡ ok n)
unfolding memory
deletes p ds e = (count p ds, refl)

persist_verification-HasFailed_example :
    HasFailed result empty_world
      (persist_verification persistence_service (result ∷ []) [] [] empty_world).0
      (persist_verification persistence_service (result ∷ []) [] [] empty_world).1
persist_verification-HasFailed_example =
    persist_verification-HasFailed persistence_service result [] [] [] empty_world refl

persist_verification-clean_example :
    (persist_verification persistence_service (result ∷ []) [] [] world).1.relay_infos ≡ []
unfolding persist_verification live memory get_by_fingerprints includes text_eq to_relay_data_dto
    delete_all
persist_verification-clean_example =
    persist_verification-clean persistence_service deletes (result ∷ []) [] [] world
      (record {
        verified_at = 0;
        relay_metrics_tx = text "relay-metrics-publishing-disabled";
        validation_stats_tx = [];
      })
      refl

persist-recovery-IsIdle_example :
    (site_with_recovery.requests ≡ [])
    ⊎ IsIdle site_with_recovery
        (process verification_service persistence_service broker
          (job_recover_persist_verification recovery)
          site_with_recovery).0
        (process verification_service persistence_service broker
          (job_recover_persist_verification recovery)
          site_with_recovery).1
persist-recovery-IsIdle_example =
    persist-recovery-IsIdle verification_service persistence_service broker deletes
      ((result ∷ []) ∷ []) site recovery

recover_persist-Retries_example :
    Retries verification_service persistence_service broker recovery site
      (process verification_service persistence_service broker
        (job_recover_persist_verification recovery)
        site).1
recover_persist-Retries_example =
    recover_persist-Retries verification_service persistence_service broker recovery site

queue_validate_relays-IsSingle_example :
    IsSingle broker 1000 site
      (count_jobs broker.get_waiting_count site).0
      (count_jobs broker.get_delayed_count (count_jobs broker.get_waiting_count site).1).0
      (active_jobs broker false
        (count_jobs broker.get_delayed_count (count_jobs broker.get_waiting_count site).1).1).0
      (queue_validate_relays broker 1000 false site).1
queue_validate_relays-IsSingle_example = queue_validate_relays-IsSingle broker 1000 site false
