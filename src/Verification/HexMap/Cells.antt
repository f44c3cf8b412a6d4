-- ===== src/Verification/HexMap/Cells.antt =====
-- Every cell of the hex map counts the relays that lie in it, and a cell stands there once.
use operator_registry_contro.Prelude.{
  ℕ, ◌+◌, ◌≤◌, ◌≡◌, refl, Bool, ◌&&◌, List, [], ◌∷◌, map, Text, ◌==◌, ==_iff, length-filter, count,
  count-snoc, if◌then◌else◌, arith, eqb,
}
use operator_registry_contro.Verification.Dto.{EnrichedVerificationResult}
use operator_registry_contro.Verification.Stats.{is_unclaimed, is_verified, is_verified_and_running}
use operator_registry_contro.Verification.HexMap.{
  HexCell, Groups, add_to_group, group_from, fill, hex_map,
}

-- The relays of a cell that `p` picks.
abbrev pub in_cell : Text → (EnrichedVerificationResult → Bool) → EnrichedVerificationResult → Bool
in_cell cell p e = e.relay.primary_address_hex == cell && p e

-- What the rows of one cell add up to.
abbrev pub sum_at : Text → (HexCell → ℕ) → List HexCell → ℕ
sum_at cell n [] = 0
sum_at cell n (row ∷ rows) = (if row.h3cell == cell then n row else 0) + sum_at cell n rows

abbrev group_sum : Text → (EnrichedVerificationResult → Bool) → Groups → ℕ
group_sum cell p [] = 0
group_sum cell p ((hex_id, items) ∷ groups) =
    (if hex_id == cell then count p items else 0) + group_sum cell p groups

abbrev group_rows : Text → Groups → ℕ
group_rows cell [] = 0
group_rows cell ((hex_id, items) ∷ groups) =
    (if hex_id == cell then 1 else 0) + group_rows cell groups

module _ (cell : Text) where
  group_sum-add :
      (p : EnrichedVerificationResult → Bool) (item : EnrichedVerificationResult) (groups : Groups)
      → group_sum cell p (add_to_group item groups)
        ≡ group_sum cell p groups + (if in_cell cell p item then 1 else 0)
  unfolding add_to_group
  group_sum-add p item [] = ground arith
  group_sum-add p item ((hex_id, items) ∷ groups) = ground (
    arith,
    group_sum-add p item groups,
    count-snoc p items item,
    ==_iff hex_id item.relay.primary_address_hex,
    ==_iff hex_id cell,
    ==_iff item.relay.primary_address_hex cell,
  )

  group_sum-group :
      (p : EnrichedVerificationResult → Bool) (groups : Groups)
      (es : List EnrichedVerificationResult)
      → group_sum cell p (group_from groups es)
        ≡ group_sum cell p groups + count (in_cell cell p) es
  unfolding group_from
  group_sum-group p groups [] = omega arith
  group_sum-group p groups (e ∷ es) =
      omega (arith, group_sum-group p (add_to_group e groups) es, group_sum-add p e groups)

  -- A cell gets a row with its first relay.
  group_rows-add :
      (item : EnrichedVerificationResult) (groups : Groups)
      → group_rows cell (add_to_group item groups)
        ≡ group_rows cell groups
          + (if item.relay.primary_address_hex == cell && eqb (group_rows cell groups) 0
              then 1
              else 0)
  unfolding add_to_group
  group_rows-add item [] = ground arith
  group_rows-add item ((hex_id, items) ∷ groups) = ground (
    arith,
    group_rows-add item groups,
    ==_iff hex_id item.relay.primary_address_hex,
    ==_iff hex_id cell,
    ==_iff item.relay.primary_address_hex cell,
  )

  group_rows-group :
      (groups : Groups) (es : List EnrichedVerificationResult)
      → group_rows cell groups ≤ 1
      → group_rows cell (group_from groups es) ≤ 1
  unfolding group_from
  group_rows-group groups [] h = h
  group_rows-group groups (e ∷ es) h =
      group_rows-group (add_to_group e groups) es (ground (arith, group_rows-add e groups))

  fill_sum :
      (p : EnrichedVerificationResult → Bool) (n : HexCell → ℕ)
      → ((g : Text × List EnrichedVerificationResult) → n (fill g) ≡ count p g.1)
      → (groups : Groups) → sum_at cell n (map fill groups) ≡ group_sum cell p groups
  unfolding fill
  fill_sum p n e [] = refl
  fill_sum p n e ((hex_id, items) ∷ groups) =
      ground (arith, e (hex_id, items), fill_sum p n e groups)

  fill_rows : (groups : Groups) → sum_at cell (λ row. 1) (map fill groups) ≡ group_rows cell groups
  unfolding fill
  fill_rows [] = refl
  fill_rows ((hex_id, items) ∷ groups) = ground (arith, fill_rows groups)

  -- For every cell: it has at most one row, and its row counts the relays that lie in the cell.
  pub record IsCounted (es : List EnrichedVerificationResult) (rows : List HexCell) : Type 0 where
    pub once : sum_at cell (λ row. 1) rows ≤ 1
    pub claimable_eq :
        sum_at cell (λ row. row.claimable) rows ≡ count (in_cell cell is_unclaimed) es
    pub verified_eq : sum_at cell (λ row. row.verified) rows ≡ count (in_cell cell is_verified) es
    pub running_eq :
        sum_at cell (λ row. row.running) rows ≡ count (in_cell cell (λ e. e.relay.running)) es
    pub running_verified_eq :
        sum_at cell (λ row. row.running_verified) rows
        ≡ count (in_cell cell is_verified_and_running) es

  grouped :
      (p : EnrichedVerificationResult → Bool) (n : HexCell → ℕ)
      (es : List EnrichedVerificationResult)
      → ((g : Text × List EnrichedVerificationResult) → n (fill g) ≡ count p g.1)
      → sum_at cell n (hex_map es) ≡ count (in_cell cell p) es
  unfolding hex_map
  grouped p n es e = omega (arith, fill_sum p n e (group_from [] es), group_sum-group p [] es)

  -- For every cell the hex map has at most one row, and that row's four numbers count the relays in the
  -- cell that are claimable, verified, running, and verified and running.
  pub hex_map-IsCounted : (es : List EnrichedVerificationResult) → IsCounted es (hex_map es)
  unfolding hex_map
  hex_map-IsCounted es = record {
    once = omega (arith, fill_rows (group_from [] es), group_rows-group [] es (omega arith));
    claimable_eq =
        grouped is_unclaimed (λ row. row.claimable) es (λ g. length-filter is_unclaimed g.1);
    verified_eq = grouped is_verified (λ row. row.verified) es (λ g. length-filter is_verified g.1);
    running_eq =
        grouped (λ e. e.relay.running) (λ row. row.running) es
          (λ g. length-filter (λ (e : EnrichedVerificationResult). e.relay.running) g.1);
    running_verified_eq =
        grouped is_verified_and_running (λ row. row.running_verified) es
          (λ g. length-filter is_verified_and_running g.1);
  }
