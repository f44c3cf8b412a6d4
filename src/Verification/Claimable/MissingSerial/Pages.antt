-- ===== src/Verification/Claimable/MissingSerial/Pages.antt =====
-- The relays without an ATEC serial over all batches of `getRelaysToAddAsClaimable` of
-- src/verification/verification.service.ts.
use operator_registry_contro.Prelude.{
  ℕ, ◌<◌, ◌≡◌, refl, ◌∙◌, sym, ap, Bool, ◌&&◌, some, List, [], ◌∷◌, ◌++◌, Text, includes,
  includes-append, count, count-le-add, arith, ok, Action, Ensures, Ensures-ok, Ensures-map,
  Ensures-both,
}
use operator_registry_contro.Validation.Dto.{RelayDataDto, RelayInfo}
use operator_registry_contro.Validation.RelayInfoService.{
  RelayInfoStore, to_relay_data_dto, in_fingerprints,
}
use operator_registry_contro.Validation.RelayInfoService.Finds.{Matches}
use operator_registry_contro.Validation.RelayInfoService.Pages.{get_by_fingerprints_paginated_inv}
use operator_registry_contro.OperatorRegistry.{Property}
use operator_registry_contro.World.{World, Error, IsQuiet, IsQuiet-refl, IsQuiet-trans}
use operator_registry_contro.Verification.Claimable.{
  ClaimableRelaysResult, classify_batch, get_relays_to_add_as_claimable,
}
use operator_registry_contro.Verification.Claimable.Reasons.{nothing_seen}
use operator_registry_contro.Verification.Claimable.Loop.{IsSorted, classify_batch-IsSorted}
use operator_registry_contro.Verification.Hardware.Proof.{HardwareVerificationService}
use operator_registry_contro.Verification.Hardware.Quiet.{hardware_service}
use operator_registry_contro.Verification.Claimable.MissingSerial.{
  needs_atec_serial, classify_batch-returns,
}

module _ {E : Type 0} (x : HardwareVerificationService E) (claimable verified : List Text)
    (table : Property) where
  -- A stored relay that was asked for and needs the serial.
  unfoldable pub is_asked : List Text → RelayInfo → Bool
  unfolding needs_atec_serial
  is_asked fingerprints d =
      in_fingerprints fingerprints d
      && needs_atec_serial x claimable verified table (to_relay_data_dto d)

  is_asked-append :
      (xs ys : List Text) (docs : List RelayInfo)
      → count (is_asked xs) docs ≡ 0
      → count (is_asked ys) docs ≡ 0
      → count (is_asked (xs ++ ys)) docs ≡ 0
  unfolding is_asked
  is_asked-append xs ys docs none_before none_now = omega (
    arith,
    none_before,
    none_now,
    count-le-add (is_asked (xs ++ ys)) (is_asked xs) (is_asked ys)
        (λ d h. ground (arith, includes-append xs ys d.fingerprint)) docs,
  )

  none_asked : (docs : List RelayInfo) → count (is_asked []) docs ≡ 0
  unfolding is_asked includes
  none_asked [] = refl
  none_asked (d ∷ docs) = omega (arith, none_asked docs)

  module _ (store : RelayInfoStore E) (start : World E) where
    Inv : List Text → ClaimableRelaysResult → World E → Type 0
    Inv xs l w =
        ((seen : List RelayDataDto) × IsSorted (hardware_service x) claimable verified (some table)
            start seen l w)
        × (count (is_asked xs) start.relay_infos ≡ 0)

    abbrev on_batch :
        List RelayDataDto
        → ℕ
        → ℕ
        → ClaimableRelaysResult
        → Action (World E) Error ClaimableRelaysResult
    on_batch batch batch_index total_batches l =
        classify_batch (hardware_service x) claimable verified (some table) batch l

    batch_found :
        (xs ys : List Text) (batch : List RelayDataDto) (index total : ℕ)
        (l : ClaimableRelaysResult) (w v : World E)
        → Inv xs l w
        → Matches ys w batch v
        → Ensures
            (Inv (xs ++ ys))
            (λ s. Unit {0})
            (on_batch batch index total l v).0
            (on_batch batch index total l v).1
    unfolding Inv is_asked
    batch_found xs ys batch index total l w v ((seen, sorted), none_before) m =
        Ensures-map
          (λ l s.
            IsSorted (hardware_service x) claimable verified (some table) start (seen ++ batch) l s
            × (count (needs_atec_serial x claimable verified table) batch ≡ 0))
          (Inv (xs ++ ys)) (λ s. Unit {0}) (on_batch batch index total l v).0
          (on_batch batch index total l v).1
          (Ensures-both
            (IsSorted (hardware_service x) claimable verified (some table) start (seen ++ batch))
            (λ l s. count (needs_atec_serial x claimable verified table) batch ≡ 0) (IsQuiet start)
            (λ s. Unit {0}) (on_batch batch index total l v).0 (on_batch batch index total l v).1
            (classify_batch-IsSorted (hardware_service x) claimable verified (some table) start seen
              batch l v
              (record {
                quiet = IsQuiet-trans sorted.quiet m.quiet;
                account = sorted.account;
                tallied = sorted.tallied;
                admissible = sorted.admissible;
              }))
            (classify_batch-returns x claimable verified table batch l v))
          (λ l' s (sorted', none_now). (
            (seen ++ batch, sorted'),
            is_asked-append xs ys start.relay_infos none_before (
                ap (count (is_asked ys)) (sym sorted.quiet.relay_infos_eq)
                ∙ sym (m.counted (needs_atec_serial x claimable verified table))
                ∙ none_now),
          ))

    get_relays_to_add_as_claimable-Inv :
        (fingerprints : List Text)
        → Ensures
            (Inv fingerprints)
            (λ s. Unit {0})
            (get_relays_to_add_as_claimable
              (hardware_service x)
              claimable
              verified
              (some table)
              store
              fingerprints
              start).0
            (get_relays_to_add_as_claimable
              (hardware_service x)
              claimable
              verified
              (some table)
              store
              fingerprints
              start).1
    unfolding get_relays_to_add_as_claimable Inv
    get_relays_to_add_as_claimable-Inv fingerprints =
        get_by_fingerprints_paginated_inv store fingerprints 1000 on_batch Inv (λ s. Unit {0})
          batch_found (λ xs l w v inv quiet. tt)
          (record { relays_to_add_as_claimable = []; results = [] }) start (omega arith)
          (
            (
              ([]),
              record {
                quiet = IsQuiet-refl start;
                account = nothing_seen;
                tallied = λ q. record {
                  failed_eq = refl;
                  registered_eq = refl;
                  verified_eq = refl;
                  new_eq = omega arith;
                  other_eq = refl;
                };
                admissible = tt;
              },
            ),
            none_asked start.relay_infos,
          )

    -- If a stored relay that was asked for is new to the registry and not known by its hardware there, and
    -- names hardware without an ATEC serial, then the sorting of all relays that were asked for returns
    -- nothing, for any of them: it throws.
    pub get_relays_to_add_as_claimable-throws :
        (fingerprints : List Text) (l : ClaimableRelaysResult)
        → 0 < count (is_asked fingerprints) start.relay_infos
        → ¬ (
            (get_relays_to_add_as_claimable
              (hardware_service x)
              claimable
              verified
              (some table)
              store
              fingerprints
              start).0
            ≡ ok l)
    unfolding Inv
    get_relays_to_add_as_claimable-throws fingerprints l stored returns =
        let (sorted, none_stored) =
          Ensures-ok (Inv fingerprints) (λ s. Unit {0})
            (get_relays_to_add_as_claimable (hardware_service x) claimable verified (some table)
              store fingerprints start).0
            (get_relays_to_add_as_claimable (hardware_service x) claimable verified (some table)
              store fingerprints start).1
            (get_relays_to_add_as_claimable-Inv fingerprints) returns in
        omega (arith, stored, none_stored)
