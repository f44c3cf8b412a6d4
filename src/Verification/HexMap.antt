-- ===== src/Verification/HexMap.antt =====
-- The hex map of `storeRelayHexMap` in src/verification/verification.service.ts. The cells are in the order
-- in which they were met; a cell's name is no array index, which JavaScript would put first.
pub mod Cells
use operator_registry_contro.Prelude.{
  ℕ, Bool, ◌&&◌, List, [], ◌∷◌, ◌++◌, map, Text, ◌==◌, filter, length, if◌then◌else◌,
}
use operator_registry_contro.Verification.Dto.{EnrichedVerificationResult}
use operator_registry_contro.Verification.Stats.{is_unclaimed, is_verified, is_verified_and_running}

pub record HexCell : Type 0 where
  pub h3cell : Text
  pub claimable : ℕ
  pub verified : ℕ
  pub running : ℕ
  pub running_verified : ℕ

abbrev pub Groups : Type 0
Groups = List (Text × List EnrichedVerificationResult)

-- `(curr[item.relay.primary_address_hex] ||= []).push(item)`
pub add_to_group : EnrichedVerificationResult → Groups → Groups
add_to_group item [] = (item.relay.primary_address_hex, item ∷ []) ∷ []
add_to_group item ((hex_id, items) ∷ groups) =
    if hex_id == item.relay.primary_address_hex
    then (hex_id, items ++ item ∷ []) ∷ groups
    else (hex_id, items) ∷ add_to_group item groups

pub group_from : Groups → List EnrichedVerificationResult → Groups
unfolding add_to_group
group_from groups [] = groups
group_from groups (item ∷ items) = group_from (add_to_group item groups) items

pub fill : Text × List EnrichedVerificationResult → HexCell
fill (hex_id, items) = record {
  h3cell = hex_id;
  claimable = length (filter is_unclaimed items);
  verified = length (filter is_verified items);
  running = length (filter (λ v. v.relay.running) items);
  running_verified = length (filter is_verified_and_running items);
}

unfoldable pub hex_map : List EnrichedVerificationResult → List HexCell
unfolding group_from fill
hex_map enriched = map fill (group_from [] enriched)
