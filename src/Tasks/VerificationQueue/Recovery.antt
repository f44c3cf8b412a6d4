-- ===== src/Tasks/VerificationQueue/Recovery.antt =====
-- The job that is to recover a failed upload.
use operator_registry_contro.Prelude.{
  ℕ, zero, suc, ◌≡◌, refl, ◌⊎◌, inl, inr, Bool, List, [], ◌∷◌, ◌++◌, Text, Result, ok, err, Action,
  continue, pure, caught, flatten,
}
use operator_registry_contro.Validation.Dto.{RelayInfo}
use operator_registry_contro.World.{World, Error}
use operator_registry_contro.Verification.Dto.{
  VerificationResultDto, VerificationData, VerificationRecovery,
}
use operator_registry_contro.Verification.Verify.{VerificationService}
use operator_registry_contro.Verification.Persist.{PersistenceService, persist_verification}
use operator_registry_contro.Verification.Persist.Recovery.{
  HasFailed, persist_verification-HasFailed, persist_verification-clean,
}
use operator_registry_contro.Tasks.Site.{
  Site, Broker, added, recover_persist_verification, post, add,
}
use operator_registry_contro.Tasks.VerificationQueue.{
  VerificationOutcome, undefined, job_persist_verification, job_recover_persist_verification,
  finish_or_retry, persist, recovered_or_retry, retry_again, recover_results, process,
}

-- A job that returned `undefined` and did nothing: no upload, no record, no further job.
pub record IsIdle {E : Type 0} (s : Site E) (r : Result Error VerificationOutcome) (s' : Site E)
    : Type 0 where
  pub result_eq : r ≡ ok undefined
  pub requests_eq : s'.requests ≡ s.requests
  pub uploads_eq : s'.world.uploads ≡ s.world.uploads
  pub verifications_eq : s'.world.verifications ≡ s.world.verifications

module _ {E : Type 0} (v : VerificationService E) (x : PersistenceService E) (b : Broker E) where
  caught_failure :
      (r : VerificationResultDto) (s : Site E) (result : Result Error VerificationData)
      (w : World E) (rest : VerificationData → Action (Site E) Error VerificationOutcome)
      → HasFailed r s.world result w
      → IsIdle s
          (caught
            (continue result rest (record s { world = w })).0
            (λ error. pure undefined)
            (continue result rest (record s { world = w })).1).0
          (caught
            (continue result rest (record s { world = w })).0
            (λ error. pure undefined)
            (continue result rest (record s { world = w })).1).1
  caught_failure r s result w rest f = rw f.result_eq (record {
    result_eq = refl;
    requests_eq = refl;
    uploads_eq = f.uploads_eq;
    verifications_eq = f.verifications_eq;
  })

  -- Without stored relays, the job to recover does nothing.
  recover-IsIdle :
      (recovery : VerificationRecovery) (left : ℕ) (rs : List VerificationResultDto) (s : Site E)
      → s.world.relay_infos ≡ []
      → IsIdle s
          (caught
            (recover_results v x b recovery left rs s).0
            (λ error. pure undefined)
            (recover_results v x b recovery left rs s).1).0
          (caught
            (recover_results v x b recovery left rs s).0
            (λ error. pure undefined)
            (recover_results v x b recovery left rs s).1).1
  unfolding recover_results
  recover-IsIdle recovery zero rs s gone = record {
    result_eq = refl;
    requests_eq = refl;
    uploads_eq = refl;
    verifications_eq = refl;
  }
  recover-IsIdle recovery (suc left) [] s gone = record {
    result_eq = refl;
    requests_eq = refl;
    uploads_eq = refl;
    verifications_eq = refl;
  }
  recover-IsIdle recovery (suc left) (r ∷ rs) s gone =
      let metrics = recovery.verification_data.relay_metrics_tx in
      let stats = recovery.verification_data.validation_stats_tx in
      let persisted = persist_verification x (r ∷ rs) metrics stats s.world in
      caught_failure r s persisted.0 persisted.1
        (λ result.
          recovered_or_retry v x b recovery left result result.relay_metrics_tx
            result.validation_stats_tx)
        (persist_verification-HasFailed x r rs metrics stats s.world gone)

  abbrev settled :
      Result Error VerificationData
      → List VerificationResultDto
      → World E
      → Site E
      → Result Error VerificationOutcome × Site E
  settled result rs w s =
      let m =
        continue result (λ d. finish_or_retry v x b rs d d.validation_stats_tx)
          (record s { world = w }) in
      caught m.0 (λ error. pure undefined) m.1

  finished :
      (rs : List VerificationResultDto) (d : VerificationData) (stats : Text) (s : Site E)
      → s.world.relay_infos ≡ []
      → (caught
          (finish_or_retry v x b rs d stats s).0
          (λ error. pure {X = Error} undefined)
          (finish_or_retry v x b rs d stats s).1).1.world.relay_infos
        ≡ []
  unfolding finish_or_retry post add
  finished rs d [] s e = e
  finished rs d (c ∷ stats) s e = e

  settled_empty :
      (result : Result Error VerificationData) (rs : List VerificationResultDto) (w : World E)
      (s : Site E)
      → ((d : VerificationData) → result ≡ ok d → w.relay_infos ≡ [])
      → ((settled result rs w s).1.requests ≡ s.requests)
        ⊎ ((settled result rs w s).1.world.relay_infos ≡ [])
  settled_empty (err e) rs w s clean = inl refl
  settled_empty (ok d) rs w s clean =
      inr (finished rs d d.validation_stats_tx (record s { world = w }) (clean d refl))

  module _
      (deletes : (p : RelayInfo → Bool) (ds : List RelayInfo) (e : E)
        → (n : ℕ) × ((x.store.relay_info_model.delete_many p ds e).0 ≡ ok n)) where
    persist_empty :
        (rs : List VerificationResultDto) (s : Site E)
        → let m = persist v x b rs s in
          let s' = (caught m.0 (λ error. pure {X = Error} undefined) m.1).1 in
          (s'.requests ≡ s.requests) ⊎ (s'.world.relay_infos ≡ [])
    unfolding persist
    persist_empty [] s = inl refl
    persist_empty (r ∷ rs) s =
        let persisted = persist_verification x (r ∷ rs) [] [] s.world in
        settled_empty persisted.0 (r ∷ rs) persisted.1 s
          (persist_verification-clean x deletes (r ∷ rs) [] [] s.world)

    -- If deleting works, a job that persists results either adds no job to recover, or any job to recover
    -- that is run next is in vain: it returns `undefined`, uploads nothing, writes no record and adds no
    -- job for the retries left.
    pub persist-recovery-IsIdle :
        (children : List (List VerificationResultDto)) (s : Site E)
        (recovery : VerificationRecovery)
        → ((process v x b (job_persist_verification children) s).1.requests ≡ s.requests)
          ⊎ IsIdle
              (process v x b (job_persist_verification children) s).1
              (process v x b
                (job_recover_persist_verification recovery)
                (process v x b (job_persist_verification children) s).1).0
              (process v x b
                (job_recover_persist_verification recovery)
                (process v x b (job_persist_verification children) s).1).1
    unfolding process
    persist-recovery-IsIdle children s recovery = elim (persist_empty (flatten children) s) [
      | inl same ↦ inl same
      | inr gone ↦ inr (
          recover-IsIdle recovery recovery.retries_left recovery.verification_results
            (process v x b (job_persist_verification children) s).1 gone)
    ]

  -- What a job to recover leaves of the requests: at most one is added, the same job with one retry
  -- less, and only if retries were left.
  abbrev pub Retries : VerificationRecovery → Site E → Site E → Type 0
  Retries recovery s s' =
      (s'.requests ≡ s.requests)
      ⊎ ((left : ℕ) × (recovery.retries_left ≡ suc left)
          × (s'.requests
              ≡ s.requests
                ++ added (recover_persist_verification (record recovery { retries_left = left }))
                  ∷ []))

  retried :
      (recovery : VerificationRecovery) (left : ℕ) (d : VerificationData) (metrics stats : Text)
      (s : Site E)
      → recovery.retries_left ≡ suc left
      → Retries recovery s
          (caught
            (recovered_or_retry v x b recovery left d metrics stats s).0
            (λ error. pure {X = Error} undefined)
            (recovered_or_retry v x b recovery left d metrics stats s).1).1
  unfolding recovered_or_retry retry_again post add
  retried recovery left d [] stats s e = inr (left, e, refl)
  retried recovery left d (m ∷ metrics) [] s e = inr (left, e, refl)
  retried recovery left d (m ∷ metrics) (c ∷ stats) s e = inl refl

  after_attempt :
      (recovery : VerificationRecovery) (left : ℕ) (result : Result Error VerificationData)
      (w : World E) (s : Site E)
      → recovery.retries_left ≡ suc left
      → let m =
          continue result
            (λ d. recovered_or_retry v x b recovery left d d.relay_metrics_tx d.validation_stats_tx)
            (record s { world = w }) in
        Retries recovery s (caught m.0 (λ error. pure {X = Error} undefined) m.1).1
  after_attempt recovery left (err thrown) w s e = inl refl
  after_attempt recovery left (ok d) w s e =
      retried recovery left d d.relay_metrics_tx d.validation_stats_tx (record s { world = w }) e

  recover-Retries :
      (recovery : VerificationRecovery) (n : ℕ) (rs : List VerificationResultDto) (s : Site E)
      → recovery.retries_left ≡ n
      → Retries recovery s
          (caught
            (recover_results v x b recovery n rs s).0
            (λ error. pure {X = Error} undefined)
            (recover_results v x b recovery n rs s).1).1
  unfolding recover_results
  recover-Retries recovery zero rs s e = inl refl
  recover-Retries recovery (suc left) [] s e = inl refl
  recover-Retries recovery (suc left) (r ∷ rs) s e =
      let persisted =
        persist_verification x (r ∷ rs) recovery.verification_data.relay_metrics_tx
          recovery.verification_data.validation_stats_tx s.world in
      after_attempt recovery left persisted.0 persisted.1 s e

  -- A job to recover adds at most one job: the same one with one retry less, and only if retries were
  -- left.
  pub recover_persist-Retries :
      (recovery : VerificationRecovery) (s : Site E)
      → Retries recovery s (process v x b (job_recover_persist_verification recovery) s).1
  unfolding process
  recover_persist-Retries recovery s =
      recover-Retries recovery recovery.retries_left recovery.verification_results s refl
