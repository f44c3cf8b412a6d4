-- ===== src/Verification/Persist.antt =====
-- `persistVerification` of src/verification/verification.service.ts, and what it calls. The upload of
-- the package @ardrive/turbo-sdk and the `JSON.stringify` of what is uploaded are parameters.
pub mod Recovery
use operator_registry_contro.Prelude.{
  ℕ, Bool, true, false, Option, none, some, List, [], ◌∷◌, ◌++◌, Text, text, ◌==◌, is_empty, filter,
  map, if◌then◌else◌, Result, ok, err, Action, ◌>>=◌, ◌>>◌, pure, try_catch,
}
use operator_registry_contro.Validation.Dto.{RelayDataDto}
use operator_registry_contro.Validation.RelayInfoService.{
  RelayInfoStore, get_by_fingerprints, delete_all,
}
use operator_registry_contro.Verification.Dto.{
  RelayVerificationResult, result_ok, already_registered, already_verified, VerificationResultDto,
  EnrichedVerificationResult, RelayValidationStatsDto, VerificationData,
}
use operator_registry_contro.Verification.Stats.{Fractions, get_validation_stats}
use operator_registry_contro.Verification.HexMap.{HexCell, hex_map}
use operator_registry_contro.Verification.Verify.{live}
use operator_registry_contro.World.{
  World, Error, relay_data_not_found, Tag, Upload, Call, as_error, ask, read,
}
use operator_registry_contro.World.Collection.{Collection}

pub record PersistenceService (E : Type 0) : Type 0 where
  pub is_live : Option Text
  pub store : RelayInfoStore E
  pub verification_data_model : Collection E VerificationData
  pub fractions : Fractions
  pub upload : Upload → Call E Text
  pub stamp_text : ℕ → Text
  pub stringify_stats : RelayValidationStatsDto → Text
  pub stringify_hex_map : List HexCell → Text

-- `new Map(relays.map(r => [r.fingerprint, r])).get(fingerprint)`: the last entry counts.
pub map_get : Text → List RelayDataDto → Option RelayDataDto
map_get fingerprint [] = none
map_get fingerprint (relay ∷ relays) = elim (map_get fingerprint relays) [
  | some later ↦ some later
  | none ↦ if relay.fingerprint == fingerprint then some relay else none
]

enrich_with : VerificationResultDto → Option RelayDataDto → Result Error EnrichedVerificationResult
enrich_with r none = err (relay_data_not_found r.fingerprint)
enrich_with r (some relay) =
    ok (record { result = r.result; fingerprint = r.fingerprint; relay = relay })

-- `results.map(...)`, which throws at the first result without a relay
pub enrich :
    List RelayDataDto → List VerificationResultDto → Result Error (List EnrichedVerificationResult)
unfolding map_get enrich_with
enrich relays [] = ok []
enrich relays (r ∷ rs) = elim (enrich_with r (map_get r.fingerprint relays)) [
  | err e ↦ err e
  | ok enriched ↦ elim (enrich relays rs) [ err e ↦ err e | ok more ↦ ok (enriched ∷ more) ]
]

-- `['AlreadyRegistered', 'AlreadyVerified', 'OK'].includes(result)`
abbrev pub is_verified_result : RelayVerificationResult → Bool
is_verified_result already_registered = true
is_verified_result already_verified = true
is_verified_result result_ok = true
is_verified_result _ = false

-- The tags of an upload.
pub upload_tags : Text → Text → List Tag
upload_tags stamp entity_type =
    record { name = text "Protocol"; value = text "ator" }
    ∷ record { name = text "Protocol-Version"; value = text "0.1" }
    ∷ record { name = text "Content-Timestamp"; value = stamp }
    ∷ record { name = text "Content-Type"; value = text "application/json" }
    ∷ record { name = text "Entity-Type"; value = entity_type }
    ∷ []

module _ {E : Type 0} (x : PersistenceService E) where
  log_upload : Upload → Result Text Text → World E → World E
  log_upload u (ok id) w = record w { uploads = w.uploads ++ u ∷ [] }
  log_upload u (err m) w = w

  pub upload_to_bundler : Upload → Action (World E) Error Text
  unfolding log_upload
  upload_to_bundler u w =
      let (r, e) = x.upload u w.env in (as_error r, log_upload u r (record w { env = e }))

  pub enrich_verification_results :
      List VerificationResultDto → Action (World E) Error (List EnrichedVerificationResult)
  unfolding enrich
  enrich_verification_results results = do
    relays ←
        get_by_fingerprints x.store (map (λ (r : VerificationResultDto). r.fingerprint) results)
    (λ w. (enrich relays results, w))

  pub store_relay_hex_map : List EnrichedVerificationResult → Action (World E) Error Text
  unfolding upload_to_bundler upload_tags
  store_relay_hex_map enriched =
      if live x.is_live
      then try_catch
          (do
            stamp ← read x.store.now
            upload_to_bundler (record {
              payload = x.stringify_hex_map (hex_map enriched);
              tags = upload_tags (x.stamp_text stamp) (text "relay/hex-map");
            }))
          (λ error. pure [])
      else pure (text "not-live-skipped-store-relay-hex-map")

  pub store_relay_metrics : ℕ → List EnrichedVerificationResult → Action (World E) Error Text
  store_relay_metrics stamp relays =
      if live x.is_live
      then pure (text "relay-metrics-publishing-disabled")
      else pure (text "not-live-skipped-store-relay-metrics")

  pub store_validation_stats : ℕ → RelayValidationStatsDto → Action (World E) Error Text
  unfolding upload_to_bundler upload_tags
  store_validation_stats stamp stats =
      if live x.is_live
      then try_catch
          (upload_to_bundler (record {
            payload = x.stringify_stats stats;
            tags = upload_tags (x.stamp_text stamp) (text "validation/stats");
          }))
          (λ error. pure [])
      else pure (text "not-live-skipped-store-validation-stats")

  -- `verificationDataModel.create(...).catch(...)`
  pub create_verification : VerificationData → Action (World E) Error (Unit {0})
  create_verification d w =
      let (r, e, ds) = x.verification_data_model.create d w.verifications w.env in
      (ok tt, record w { env = e; verifications = ds })

  -- `metricsTx != '' ? metricsTx : await this.storeRelayMetrics(...)`
  pub metrics_or_stored : ℕ → Text → List EnrichedVerificationResult → Action (World E) Error Text
  unfolding store_relay_metrics
  metrics_or_stored stamp [] enriched =
      store_relay_metrics stamp
        (filter (λ (e : EnrichedVerificationResult). is_verified_result e.result) enriched)
  metrics_or_stored stamp metrics_tx enriched = pure metrics_tx

  -- `statsTx != '' ? statsTx : await this.storeValidationStats(...)`
  pub stats_or_stored : ℕ → Text → List EnrichedVerificationResult → Action (World E) Error Text
  unfolding store_validation_stats
  stats_or_stored stamp [] enriched =
      store_validation_stats stamp (get_validation_stats x.fractions enriched)
  stats_or_stored stamp stats_tx enriched = pure stats_tx

  -- `if (verificationData.validation_stats_tx.length > 0)`
  pub publish_hex_map : Text → List EnrichedVerificationResult → Action (World E) Error Text
  unfolding store_relay_hex_map
  publish_hex_map [] enriched = pure []
  publish_hex_map stats enriched = store_relay_hex_map enriched

  pub clean_up : Action (World E) Error ℕ
  clean_up = try_catch (delete_all x.store) (λ error. pure 0)

  -- the last steps: nothing that they throw gets past them
  pub finish :
      VerificationData → List EnrichedVerificationResult → Action (World E) Error VerificationData
  unfolding create_verification publish_hex_map clean_up
  finish d enriched = do
    create_verification d
    publish_hex_map d.validation_stats_tx enriched
    clean_up
    pure d

  -- what follows the enrichment
  pub persist_enriched :
      ℕ → Text → Text → List EnrichedVerificationResult → Action (World E) Error VerificationData
  unfolding metrics_or_stored stats_or_stored finish
  persist_enriched stamp metrics_tx stats_tx enriched = do
    metrics ← metrics_or_stored stamp metrics_tx enriched
    stats ← stats_or_stored stamp stats_tx enriched
    finish (record { verified_at = stamp; relay_metrics_tx = metrics; validation_stats_tx = stats })
        enriched

  unfoldable pub persist_verification :
      List VerificationResultDto → Text → Text → Action (World E) Error VerificationData
  unfolding enrich_verification_results persist_enriched
  persist_verification results metrics_tx stats_tx = do
    stamp ← read x.store.now
    enriched ← enrich_verification_results results
    persist_enriched stamp metrics_tx stats_tx enriched
