-- ===== src/Validation/RelayInfoService/Pages.antt =====
-- The loop over batches visits every fingerprint, and its fuel is enough.
use operator_registry_contro.Prelude.{
  ℕ, zero, suc, ◌+◌, ◌≤◌, ◌<◌, ◌≡◌, refl, sym, ap, subst, ◌∙◌, ◌++◌, drop, take-add, continue,
  Ensures, Ensures-continue, inl, inr, Text, List, [], ◌∷◌, Result, ok, err, Action, length, take,
  ltb, Bool-cases, arith,
}
use operator_registry_contro.Validation.Dto.{RelayDataDto}
use operator_registry_contro.World.{World, Error, IsQuiet}
use operator_registry_contro.Validation.RelayInfoService.Finds.{
  Matches, get_by_fingerprints-Matches,
}
use operator_registry_contro.Validation.RelayInfoService.{
  RelayInfoStore, slice, get_by_fingerprints, one_batch, batches_from,
  get_by_fingerprints_paginated,
}

take-of_le {ℓ} : {A : Type ℓ} (n : ℕ) (xs : List A) → length xs ≤ n → take n xs ≡ xs
take-of_le zero [] h = refl
take-of_le zero (x ∷ xs) h = elim h [ ]
take-of_le (suc n) [] h = refl
take-of_le (suc n) (x ∷ xs) h = ap (◌∷◌ x) (take-of_le n xs (omega arith))

module _ {E : Type 0} (x : RelayInfoStore E) {L : Type 0} (fingerprints : List Text) (size : ℕ)
    (on_batch : List RelayDataDto → ℕ → ℕ → L → Action (World E) Error L) where
  -- `Inv` speaks of the fingerprints visited so far; `K` is what holds if a batch throws.
  module _ (Inv : List Text → L → World E → Type 0) (K : World E → Type 0)
      (step : (xs ys : List Text) (batch : List RelayDataDto) (index total : ℕ) (l : L)
          (w v : World E)
        → Inv xs l w
        → Matches ys w batch v
        → Ensures
            (Inv (xs ++ ys))
            K
            (on_batch batch index total l v).0
            (on_batch batch index total l v).1)
      (fails : (xs : List Text) (l : L) (w v : World E) → Inv xs l w → IsQuiet w v → K v) where
    abbrev after_batch : ℕ → L → World E → Result Error L × World E
    after_batch i l w = one_batch x fingerprints size on_batch i l w

    found :
        (i : ℕ) (l : L) (w : World E)
        → Inv (take i fingerprints) l w
        → (r : Result Error (List RelayDataDto)) (v : World E) (index total : ℕ)
        → Ensures (Matches (slice fingerprints i (i + size)) w) (IsQuiet w) r v
        → Ensures
            (Inv (take i fingerprints ++ slice fingerprints i (i + size)))
            K
            (continue r (λ batch. on_batch batch index total l) v).0
            (continue r (λ batch. on_batch batch index total l) v).1
    found i l w inv (ok batch) v index total m =
        step (take i fingerprints) (slice fingerprints i (i + size)) batch index total l w v inv m
    found i l w inv (err e) v index total quiet = fails (take i fingerprints) l w v inv quiet

    one_batch_inv :
        (i : ℕ) (l : L) (w : World E)
        → Inv (take i fingerprints) l w
        → Ensures (Inv (take (i + size) fingerprints)) K (after_batch i l w).0 (after_batch i l w).1
    unfolding one_batch
    one_batch_inv i l w inv =
        subst (λ t. Ensures (Inv t) K (after_batch i l w).0 (after_batch i l w).1)
          (ap (λ n. take i fingerprints ++ take n (drop i fingerprints)) (omega arith)
            ∙ sym (take-add i size fingerprints))
          (found i l w inv (get_by_fingerprints x (slice fingerprints i (i + size)) w).0
            (get_by_fingerprints x (slice fingerprints i (i + size)) w).1 _ _
            (get_by_fingerprints-Matches x (slice fingerprints i (i + size)) w))

    batches_from_inv :
        (fuel i : ℕ) (l : L) (w : World E)
        → 0 < size
        → length fingerprints ≤ i + fuel
        → Inv (take i fingerprints) l w
        → Ensures
            (Inv fingerprints)
            K
            (batches_from x fingerprints size on_batch fuel i l w).0
            (batches_from x fingerprints size on_batch fuel i l w).1
    unfolding batches_from
    batches_from_inv zero i l w pos enough inv =
        subst (λ t. Inv t l w) (take-of_le i fingerprints (omega arith)) inv
    batches_from_inv (suc fuel) i l w pos enough inv =
        elim (Bool-cases (ltb i (length fingerprints))) [
          | inl more ↦ rw more (
              Ensures-continue (Inv (take (i + size) fingerprints)) (Inv fingerprints) K
                (after_batch i l w).0 (batches_from x fingerprints size on_batch fuel (i + size))
                (after_batch i l w).1 (one_batch_inv i l w inv)
                (λ l' w' inv'. batches_from_inv fuel (i + size) l' w' pos (omega arith) inv'))
          | inr over ↦
              rw over (subst (λ t. Inv t l w) (take-of_le i fingerprints (ground arith)) inv)
        ]

    pub get_by_fingerprints_paginated_inv :
        (l : L) (w : World E)
        → 0 < size
        → Inv [] l w
        → Ensures
            (Inv fingerprints)
            K
            (get_by_fingerprints_paginated x fingerprints size on_batch l w).0
            (get_by_fingerprints_paginated x fingerprints size on_batch l w).1
    unfolding get_by_fingerprints_paginated
    get_by_fingerprints_paginated_inv l w pos inv =
        batches_from_inv (length fingerprints) 0 l w pos (omega arith) inv
