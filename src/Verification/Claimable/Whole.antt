-- ===== src/Verification/Claimable/Whole.antt =====
-- What `getRelaysToAddAsClaimable` does to the stored relays that were asked for.
use operator_registry_contro.Prelude.{
  ℕ, ◌≤◌, ◌≡◌, refl, ap, ◌∙◌, Bool, ◌&&◌, Option, List, [], ◌∷◌, ◌++◌, Text, includes,
  includes-append, count, count-append, count-le-add, count-eq_zero, Ensures, Action, Ensures-map,
  arith,
}
use operator_registry_contro.Validation.Dto.{RelayDataDto, RelayInfo}
use operator_registry_contro.Validation.RelayInfoService.{
  RelayInfoStore, to_relay_data_dto, in_fingerprints,
}
use operator_registry_contro.Validation.RelayInfoService.Finds.{Matches}
use operator_registry_contro.Validation.RelayInfoService.Pages.{get_by_fingerprints_paginated_inv}
use operator_registry_contro.Verification.HardwareService.{HardwareService}
use operator_registry_contro.OperatorRegistry.{Property}
use operator_registry_contro.World.{World, Error, IsQuiet, IsQuiet-refl, IsQuiet-trans}
use operator_registry_contro.Verification.Claimable.{
  ClaimableRelaysResult, classify_batch, get_relays_to_add_as_claimable,
}
use operator_registry_contro.Verification.Claimable.Reasons.{nothing_seen}
use operator_registry_contro.Verification.Claimable.Loop.{IsSorted, classify_batch-IsSorted}

-- The relays seen are the stored ones that were asked for: each of them is stored and asked for, and
-- none is missing.
pub record Covers (fingerprints : List Text) (docs : List RelayInfo) (seen : List RelayDataDto)
    : Type 0 where
  pub asked :
      (q : RelayDataDto → Bool)
      → count (λ d. in_fingerprints fingerprints d && q (to_relay_data_dto d)) docs ≡ 0
      → count q seen ≡ 0
  pub complete :
      (q : RelayDataDto → Bool)
      → count (λ d. in_fingerprints fingerprints d && q (to_relay_data_dto d)) docs ≤ count q seen

-- One more batch, whose relays are the matches of its fingerprints.
Covers-append :
    (xs ys : List Text) (docs : List RelayInfo) (seen batch : List RelayDataDto)
    → Covers xs docs seen
    → ((q : RelayDataDto → Bool)
        → count q batch ≡ count (λ d. in_fingerprints ys d && q (to_relay_data_dto d)) docs)
    → Covers (xs ++ ys) docs (seen ++ batch)
Covers-append xs ys docs seen batch c found = record {
  asked = λ q none_match. rw count-append (
      omega (
        arith,
        found q,
        c.asked q (
            count-eq_zero _ _ (λ d h. ground (arith, includes-append xs ys d.fingerprint)) docs
              none_match),
        count-eq_zero (λ d. in_fingerprints ys d && q (to_relay_data_dto d)) _
            (λ d h. ground (arith, includes-append xs ys d.fingerprint)) docs none_match,
      ));
  complete = λ q. rw count-append (
      omega (
        arith,
        found q,
        c.complete q,
        count-le-add (λ d. in_fingerprints (xs ++ ys) d && q (to_relay_data_dto d))
            (λ d. in_fingerprints xs d && q (to_relay_data_dto d))
            (λ d. in_fingerprints ys d && q (to_relay_data_dto d))
            (λ d h. ground (arith, includes-append xs ys d.fingerprint)) docs,
      ));
}

module _ {E : Type 0} (hardware : HardwareService E) (claimable verified : List Text)
    (table : Option Property) (store : RelayInfoStore E) (start : World E) where
  -- All relays that were asked for are sorted into results and relays to add.
  pub record IsClassified (fingerprints : List Text) (l : ClaimableRelaysResult) (w : World E)
      : Type 0 where
    pub seen : List RelayDataDto
    pub sorted : IsSorted hardware claimable verified table start seen l w
    pub covers : Covers fingerprints start.relay_infos seen

  none_asked :
      (q : RelayDataDto → Bool) (docs : List RelayInfo)
      → count (λ d. in_fingerprints [] d && q (to_relay_data_dto d)) docs ≤ 0
  unfolding includes
  none_asked q [] = omega arith
  none_asked q (d ∷ docs) = omega (arith, none_asked q docs)

  abbrev on_batch :
      List RelayDataDto
      → ℕ
      → ℕ
      → ClaimableRelaysResult
      → Action (World E) Error ClaimableRelaysResult
  on_batch batch batch_index total_batches l =
      classify_batch hardware claimable verified table batch l

  -- A batch, once the database has answered.
  batch_found :
      (xs ys : List Text) (batch : List RelayDataDto) (index total : ℕ) (l : ClaimableRelaysResult)
      (w v : World E)
      → IsClassified xs l w
      → Matches ys w batch v
      → Ensures
          (IsClassified (xs ++ ys))
          (IsQuiet start)
          (on_batch batch index total l v).0
          (on_batch batch index total l v).1
  batch_found xs ys batch index total l w v c m =
      Ensures-map (IsSorted hardware claimable verified table start (c.seen ++ batch))
        (IsClassified (xs ++ ys)) (IsQuiet start) (on_batch batch index total l v).0
        (on_batch batch index total l v).1
        (classify_batch-IsSorted hardware claimable verified table start c.seen batch l v (record {
          quiet = IsQuiet-trans c.sorted.quiet m.quiet;
          account = c.sorted.account;
          tallied = c.sorted.tallied;
          admissible = c.sorted.admissible;
        }))
        (λ l' w' s. record {
          seen = c.seen ++ batch;
          sorted = s;
          covers = Covers-append xs ys start.relay_infos c.seen batch c.covers (λ q.
              m.counted q
              ∙ ap (count (λ d. in_fingerprints ys d && q (to_relay_data_dto d)))
                  c.sorted.quiet.relay_infos_eq);
        })

  -- If the call returns, the relays that it has seen are the stored ones that were asked for, each of them
  -- at least as often as it is stored. In their order, each is given the one result that it deserves or is
  -- put among those to add, and nothing else is given: 'Failed' with the dummy address; of the others,
  -- 'AlreadyRegistered' and 'AlreadyVerified' by the registry's lists; of the new ones 'HardwareProofFailed'
  -- if the relay names hardware that the registry's table does not have, and either its device is verified
  -- for another registered relay or the service called its proof invalid; and a relay is added if it is new
  -- and names no hardware, or such that the table has, or such whose proof the service called valid, which
  -- the mark says, with a device that no other registered relay has. Whether it returns or throws, nothing
  -- is sent, and the stored relays and the known devices stay.
  pub get_relays_to_add_as_claimable-IsClassified :
      (fingerprints : List Text)
      → Ensures
          (IsClassified fingerprints)
          (IsQuiet start)
          (get_relays_to_add_as_claimable hardware claimable verified table store fingerprints
            start).0
          (get_relays_to_add_as_claimable hardware claimable verified table store fingerprints
            start).1
  unfolding get_relays_to_add_as_claimable
  get_relays_to_add_as_claimable-IsClassified fingerprints =
      get_by_fingerprints_paginated_inv store fingerprints 1000 on_batch IsClassified
        (IsQuiet start) batch_found (λ xs l w v c quiet. IsQuiet-trans c.sorted.quiet quiet)
        (record { relays_to_add_as_claimable = []; results = [] }) start (omega arith)
        (record {
          seen = [];
          sorted = record {
            quiet = IsQuiet-refl start;
            account = nothing_seen;
            tallied = λ q. record {
              failed_eq = refl;
              registered_eq = refl;
              verified_eq = refl;
              new_eq = omega arith;
              other_eq = refl;
            };
            admissible = tt;
          };
          covers = record { asked = λ q h. refl; complete = λ q. none_asked q start.relay_infos };
        })
