-- ===== src/Validation/ValidationService/Pattern.antt =====
-- Which relays the filter of src/validation/validation.service.ts wants, said without its search.
use operator_registry_contro.Prelude.{
  ℕ, ◌≡◌, refl, ap, ◌∙◌, true, false, Option, none, some, is_some, List, [], ◌∷◌, ◌++◌, Text,
  includes, index_of, starts_with, lower, Bool-cases, Option-cases, inl, inr, arith,
}
use operator_registry_contro.Validation.AtorKey.{ator_key_pattern}
use operator_registry_contro.Validation.ValidationService.{DetailsRelay, has_pattern, is_matching}

-- The text stands somewhere in the other.
abbrev pub Within : Text → Text → Type 0
Within p s = (before : Text) × (after : Text) × (s ≡ before ++ (p ++ after))

starts_with-rest : (p s : Text) → starts_with p s ≡ true → (after : Text) × (s ≡ p ++ after)
unfolding starts_with
starts_with-rest [] s h = (s, refl)
starts_with-rest (c ∷ p) [] h = cc
starts_with-rest (c ∷ p) (d ∷ s) h =
    let (after, e) = starts_with-rest p s (ground arith) in
    let same : d ≡ c = ground arith in (after, ap (λ t. d ∷ t) e ∙ ap (λ k. k ∷ (p ++ after)) same)

starts_with_self : (p after : Text) → starts_with p (p ++ after) ≡ true
unfolding starts_with
starts_with_self [] after = refl
starts_with_self (c ∷ p) after = ground (arith, starts_with_self p after)

index_of-Within : (p s : Text) {i : ℕ} → index_of p s ≡ some i → Within p s
unfolding index_of
index_of-Within p [] h = elim (Bool-cases (starts_with p [])) [
  | inl here ↦ let (after, e) = starts_with-rest p [] here in (([]), after, e)
  | inr nowhere ↦ let n : ◌≡◌ {A = Option ℕ} none (some _) = rw nowhere at h in cc
]
index_of-Within p (c ∷ s) h = elim (Bool-cases (starts_with p (c ∷ s))) [
  | inl here ↦ let (after, e) = starts_with-rest p (c ∷ s) here in (([]), after, e)
  | inr later ↦ elim (Option-cases (index_of p s)) [
    | inl nowhere ↦ let n : ◌≡◌ {A = Option ℕ} none (some _) = rw (later, nowhere) at h in cc
    | inr (j, found) ↦
        let (before, after, e) = index_of-Within p s found in (c ∷ before, after, ap (λ t. c ∷ t) e)
  ]
]

index_of-prefix : (p s : Text) → starts_with p s ≡ true → is_some (index_of p s) ≡ true
unfolding index_of
index_of-prefix p [] h = rw h refl
index_of-prefix p (c ∷ s) h = rw h refl

index_of-later :
    (p : Text) (c : ℕ) (s : Text)
    → is_some (index_of p s) ≡ true
    → is_some (index_of p (c ∷ s)) ≡ true
unfolding index_of
index_of-later p c s h = elim (Bool-cases (starts_with p (c ∷ s))) [
  | inl here ↦ rw here refl
  | inr later ↦ elim (Option-cases (index_of p s)) [
    | inl nowhere ↦ let n : false ≡ true = rw nowhere at h in cc
    | inr (j, found) ↦ rw (later, found) refl
  ]
]

Within-index_of : (p before after : Text) → is_some (index_of p (before ++ (p ++ after))) ≡ true
Within-index_of p [] after = index_of-prefix p (p ++ after) (starts_with_self p after)
Within-index_of p (c ∷ before) after =
    index_of-later p c (before ++ (p ++ after)) (Within-index_of p before after)

-- A contact that has the pattern, in capitals or not.
abbrev pub HasPattern : Option Text → Type 0
HasPattern none = ⊥
HasPattern (some contact) = Within ator_key_pattern (lower contact)

-- The relay is not banned, and its contact has the pattern.
abbrev pub IsWanted : List Text → DetailsRelay → Type 0
IsWanted banned info = (includes banned info.fingerprint ≡ false) × HasPattern info.contact

has_pattern-HasPattern : (contact : Option Text) → has_pattern contact ≡ true → HasPattern contact
unfolding has_pattern
has_pattern-HasPattern none h = cc
has_pattern-HasPattern (some contact) h =
    elim (Option-cases (index_of ator_key_pattern (lower contact))) [
      | inl nowhere ↦ let n : false ≡ true = rw nowhere at h in cc
      | inr (i, found) ↦ index_of-Within ator_key_pattern (lower contact) found
    ]

HasPattern-has_pattern : (contact : Option Text) → HasPattern contact → has_pattern contact ≡ true
unfolding has_pattern
HasPattern-has_pattern none h = absurd h
HasPattern-has_pattern (some contact) (before, after, e) =
    rw e (Within-index_of ator_key_pattern before after)

module _ (banned : List Text) (info : DetailsRelay) where
  pub is_matching-IsWanted : is_matching banned info ≡ true → IsWanted banned info
  unfolding is_matching
  is_matching-IsWanted h = (ground arith, has_pattern-HasPattern info.contact (ground arith))

  pub is_matching-unwanted : is_matching banned info ≡ false → ¬ (IsWanted banned info)
  unfolding is_matching
  is_matching-unwanted h (free, has) =
      let found = HasPattern-has_pattern info.contact has in ground arith
