-- ===== src/Verification/Persist/Recovery.antt =====
-- A second attempt to persist the same results, which the recovery job makes.
use operator_registry_contro.Prelude.{
  ℕ, ◌≡◌, refl, ◌∙◌, Bool, true, not, List, [], ◌∷◌, Text, count, filter, map, Result, ok, err,
  Ensures, Action, ◌>>=◌, ◌>>◌, continue, pure, Ensures-after, Ensures-ok, arith,
}
use operator_registry_contro.Validation.Dto.{RelayDataDto, RelayInfo}
use operator_registry_contro.Validation.RelayInfoService.{get_by_fingerprints, delete_all}
use operator_registry_contro.Validation.RelayInfoService.Finds.{
  Matches, get_by_fingerprints-Matches,
}
use operator_registry_contro.Verification.Dto.{
  VerificationResultDto, EnrichedVerificationResult, VerificationData,
}
use operator_registry_contro.World.{World, Error, relay_data_not_found, IsQuiet}
use operator_registry_contro.Verification.Persist.{
  PersistenceService, enrich, enrich_verification_results, create_verification, publish_hex_map,
  metrics_or_stored, stats_or_stored, finish, persist_enriched, clean_up, persist_verification,
}

empty_of_count : (rs : List RelayDataDto) → count (λ r. true) rs ≡ 0 → rs ≡ []
empty_of_count [] h = refl
empty_of_count (r ∷ rs) h = absurd (omega arith)

-- The call threw before it wrote anything.
pub record HasFailed {E : Type 0} (r : VerificationResultDto) (w : World E)
    (result : Result Error VerificationData) (w' : World E) : Type 0 where
  pub thrown : Error
  pub result_eq : result ≡ err thrown
  pub uploads_eq : w'.uploads ≡ w.uploads
  pub verifications_eq : w'.verifications ≡ w.verifications

enrich_empty :
    (relays : List RelayDataDto) (r : VerificationResultDto) (rs : List VerificationResultDto)
    → relays ≡ []
    → enrich relays (r ∷ rs) ≡ err (relay_data_not_found r.fingerprint)
unfolding enrich
enrich_empty relays r rs e = rw e

module _ {E : Type 0} (x : PersistenceService E) where
  module _ (r : VerificationResultDto) (rs : List VerificationResultDto) (w : World E)
      (rest : List EnrichedVerificationResult → Action (World E) Error VerificationData)
      (gone : w.relay_infos ≡ []) where
    abbrev enriched :
        Result Error (List RelayDataDto) → World E → Result Error VerificationData × World E
    enriched g v =
        let m = continue g (λ relays u. (enrich relays (r ∷ rs), u)) v in continue m.0 rest m.1

    not_enriched :
        (fingerprints : List Text) (g : Result Error (List RelayDataDto)) (v : World E)
        → Ensures (Matches fingerprints w) (IsQuiet w) g v
        → HasFailed r w (enriched g v).0 (enriched g v).1
    not_enriched fingerprints (err e) v q = record {
      thrown = e;
      result_eq = refl;
      uploads_eq = q.uploads_eq;
      verifications_eq = q.verifications_eq;
    }
    not_enriched fingerprints (ok relays) v m =
        rw (enrich_empty relays r rs (empty_of_count relays (m.counted (λ d. true) ∙ rw gone)))
          (record {
            thrown = relay_data_not_found r.fingerprint;
            result_eq = refl;
            uploads_eq = m.quiet.uploads_eq;
            verifications_eq = m.quiet.verifications_eq;
          })

  -- Once the stored relays are gone, persisting a nonempty list of results throws: nothing is
  -- uploaded and no record of the verification is written.
  pub persist_verification-HasFailed :
      (r : VerificationResultDto) (rs : List VerificationResultDto) (metrics_tx stats_tx : Text)
      (w : World E)
      → w.relay_infos ≡ []
      → HasFailed r w
          (persist_verification x (r ∷ rs) metrics_tx stats_tx w).0
          (persist_verification x (r ∷ rs) metrics_tx stats_tx w).1
  unfolding persist_verification
  persist_verification-HasFailed r rs metrics_tx stats_tx w gone =
      let w' : World E = record w { env = (x.store.now w.env).1 } in
      let fingerprints = map (λ (r : VerificationResultDto). r.fingerprint) (r ∷ rs) in
      let f =
        not_enriched r rs w' (persist_enriched x (x.store.now w.env).0 metrics_tx stats_tx) gone
          fingerprints (get_by_fingerprints x.store fingerprints w').0
          (get_by_fingerprints x.store fingerprints w').1
          (get_by_fingerprints-Matches x.store fingerprints w') in
      record {
        thrown = f.thrown;
        result_eq = f.result_eq;
        uploads_eq = f.uploads_eq;
        verifications_eq = f.verifications_eq;
      }

  module _
      (deletes : (p : RelayInfo → Bool) (ds : List RelayInfo) (e : E)
        → (n : ℕ) × ((x.store.relay_info_model.delete_many p ds e).0 ≡ ok n)) where
    filter_none : (ds : List RelayInfo) → filter (λ d. not true) ds ≡ []
    filter_none [] = refl
    filter_none (d ∷ ds) = filter_none ds

    clean_up-empty : (w : World E) → (clean_up x w).1.relay_infos ≡ []
    unfolding clean_up delete_all
    clean_up-empty w =
        let (n, e) = deletes (λ d. true) w.relay_infos w.env in
        rw e (
          (x.store.relay_info_model.delete_many_lem (λ d. true) w.relay_infos w.env n e).0
          ∙ filter_none w.relay_infos)

    abbrev Clean : VerificationData → World E → Type 0
    Clean d w = w.relay_infos ≡ []

    abbrev Any : World E → Type 0
    Any w = Unit

    cleaned :
        (d : VerificationData) (r : Result Error ℕ) (v : World E)
        → v.relay_infos ≡ []
        → Ensures Clean Any (continue r (λ n. pure d) v).0 (continue r (λ n. pure d) v).1
    cleaned d (ok n) v h = h
    cleaned d (err e) v h = tt

    finish-Clean :
        (d : VerificationData) (es : List EnrichedVerificationResult) (w : World E)
        → Ensures Clean Any (finish x d es w).0 (finish x d es w).1
    unfolding finish
    finish-Clean d es w =
        let created = create_verification x d w in
        Ensures-after Clean Any created.0
          (λ _. publish_hex_map x d.validation_stats_tx es >>= λ _. (clean_up x >> pure d))
          created.1 (λ v. tt)
          λ _ v.
            let published = publish_hex_map x d.validation_stats_tx es v in
            Ensures-after Clean Any published.0 (λ _. clean_up x >> pure d) published.1 (λ v. tt)
              λ _ v. cleaned d (clean_up x v).0 (clean_up x v).1 (clean_up-empty v)

    persist_enriched-Clean :
        (stamp : ℕ) (metrics_tx stats_tx : Text) (es : List EnrichedVerificationResult)
        (w : World E)
        → Ensures Clean Any
            (persist_enriched x stamp metrics_tx stats_tx es w).0
            (persist_enriched x stamp metrics_tx stats_tx es w).1
    unfolding persist_enriched
    persist_enriched-Clean stamp metrics_tx stats_tx es w =
        let stored = metrics_or_stored x stamp metrics_tx es w in
        Ensures-after Clean Any stored.0
          (λ metrics. stats_or_stored x stamp stats_tx es >>= λ stats.
            finish x
              (record {
                verified_at = stamp;
                relay_metrics_tx = metrics;
                validation_stats_tx = stats;
              })
              es)
          stored.1 (λ v. tt)
          λ metrics v.
            let stats = stats_or_stored x stamp stats_tx es v in
            Ensures-after Clean Any stats.0
              (λ stats.
                finish x
                  (record {
                    verified_at = stamp;
                    relay_metrics_tx = metrics;
                    validation_stats_tx = stats;
                  })
                  es)
              stats.1 (λ v. tt)
              λ stats v.
                finish-Clean
                  (record {
                    verified_at = stamp;
                    relay_metrics_tx = metrics;
                    validation_stats_tx = stats;
                  })
                  es v

    -- If deleting works, a call that returns has deleted all stored relays, also if the statistics
    -- were not uploaded.
    pub persist_verification-clean :
        (results : List VerificationResultDto) (metrics_tx stats_tx : Text) (w : World E)
        (d : VerificationData)
        → (persist_verification x results metrics_tx stats_tx w).0 ≡ ok d
        → (persist_verification x results metrics_tx stats_tx w).1.relay_infos ≡ []
    unfolding persist_verification
    persist_verification-clean results metrics_tx stats_tx w d h =
        Ensures-ok Clean Any _ _
          (Ensures-after Clean Any
            (enrich_verification_results x results (record w { env = (x.store.now w.env).1 })).0
            (persist_enriched x (x.store.now w.env).0 metrics_tx stats_tx)
            (enrich_verification_results x results (record w { env = (x.store.now w.env).1 })).1
            (λ v. tt) (persist_enriched-Clean (x.store.now w.env).0 metrics_tx stats_tx))
          h
