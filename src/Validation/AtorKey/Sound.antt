-- ===== src/Validation/AtorKey/Sound.antt =====
-- What `extractAtorKey` of src/validation/validation.service.ts finds.
use operator_registry_contro.Prelude.{
  ℕ, zero, suc, ◌+◌, ◌-◌, ◌≤◌, ◌≡◌, refl, sym, ap, subst, ◌∙◌, ◌⊎◌, inl, inr, true, Option, none,
  some, List, [], ◌∷◌, ◌++◌, Text, text, starts_with, index_of, lower, length, take, drop, leb,
  Bool-cases, Option-cases, arith, take-append-drop, length-take, length-drop,
}
use operator_registry_contro.Validation.AtorKey.{
  Ethers, ator_key_pattern, key_length, index_from, replace_first, substring, key_at, key_after,
  extract_ator_key,
}

drop-empty {ℓ} : {A : Type ℓ} (n : ℕ) → drop {A = A} n [] ≡ []
drop-empty zero = refl
drop-empty (suc n) = refl

pub drop-drop {ℓ} : {A : Type ℓ} (n m : ℕ) (xs : List A) → drop m (drop n xs) ≡ drop (n + m) xs
drop-drop zero m xs = let e : m ≡ 0 + m = omega arith in ap (λ k. drop k xs) e
drop-drop (suc n) zero [] = sym (drop-empty (suc n + 0))
drop-drop (suc n) (suc m) [] = sym (drop-empty (suc n + suc m))
drop-drop (suc n) m (x ∷ xs) =
    let e : suc (n + m) ≡ suc n + m = omega arith in drop-drop n m xs ∙ ap (λ k. drop k (x ∷ xs)) e

index_of_sound : (p s : Text) (i : ℕ) → index_of p s ≡ some i → starts_with p (drop i s) ≡ true
unfolding index_of
index_of_sound p [] i h = elim (Bool-cases (starts_with p [])) [
  | inl e ↦
      let here : some 0 ≡ some i = rw e at h in
      let z : 0 ≡ i = cc in subst (λ j. starts_with p (drop j []) ≡ true) z e
  | inr e ↦ let nowhere : ◌≡◌ {A = Option ℕ} none (some i) = rw e at h in cc
]
index_of_sound p (c ∷ s) i h = elim (Bool-cases (starts_with p (c ∷ s))) [
  | inl e ↦
      let here : some 0 ≡ some i = rw e at h in
      let z : 0 ≡ i = cc in subst (λ j. starts_with p (drop j (c ∷ s)) ≡ true) z e
  | inr e ↦ elim (Option-cases (index_of p s)) [
    | inl e' ↦ let nowhere : ◌≡◌ {A = Option ℕ} none (some i) = rw (e, e') at h in cc
    | inr (j, e') ↦
        let there : some (suc j) ≡ some i = rw (e, e') at h in
        let next : suc j ≡ i = cc in
        subst (λ j. starts_with p (drop j (c ∷ s)) ≡ true) next (index_of_sound p s j e')
  ]
]

index_from_sound :
    (p s : Text) (base k : ℕ)
    → index_from p s base ≡ some k
    → (base ≤ k) × (starts_with p (drop k s) ≡ true)
unfolding index_from
index_from_sound p s base k h = elim (Option-cases (index_of p (drop base s))) [
  | inl e ↦ let nowhere : ◌≡◌ {A = Option ℕ} none (some k) = rw (e, index_from) at h in cc
  | inr (i, e) ↦
      let there : some (base + i) ≡ some k = rw (e, index_from) at h in
      let at_k : base + i ≡ k = cc in
      (
        omega (arith, at_k),
        subst (λ k. starts_with p (drop k s) ≡ true) at_k
            (sym (ap (starts_with p) (drop-drop base i s)) ∙ index_of_sound p (drop base s) i e),
      )
]

starts_with-take :
    (p s : Text) (n : ℕ) → length p ≤ n → starts_with p s ≡ true → starts_with p (take n s) ≡ true
unfolding starts_with
starts_with-take [] s n h e = refl
starts_with-take (c ∷ p) [] n h e = cc
starts_with-take (c ∷ p) (x ∷ s) zero h e = absurd (omega arith)
starts_with-take (c ∷ p) (x ∷ s) (suc n) h e = ground (arith, starts_with-take p s n)

-- Where a key stands in a contact: the candidate is a part of the contact, with its first '0X'
-- written '0x', that starts with '0x' after the pattern.
pub record IsAtorKey (ethers : Ethers) (input key : Text) : Type 0 where
  pub before : Text
  pub candidate : Text
  pub after : Text
  pub split : replace_first input ≡ before ++ (candidate ++ after)
  pub length_eq : length candidate ≡ key_length
  pub starts : starts_with (text "0x") candidate ≡ true
  pub valid : ethers.is_address candidate ≡ true
  pub key_eq : key ≡ ethers.get_address candidate
  pub start_index : ℕ
  pub pattern : index_of ator_key_pattern (lower input) ≡ some start_index
  pub follows : start_index + length ator_key_pattern ≤ length before

module _ (ethers : Ethers) where
  key_at-cases :
      (fixed : Text) (k : ℕ)
      → (key_at ethers fixed (some k) ≡ [])
        ⊎ ((k + key_length ≤ length fixed)
            × (ethers.is_address (substring fixed k (k + key_length)) ≡ true)
            × (key_at ethers fixed (some k)
                ≡ ethers.get_address (substring fixed k (k + key_length))))
  unfolding key_at
  key_at-cases fixed k = elim (Bool-cases (leb (k + key_length) (length fixed))) [
    | inr over ↦ inl (rw over)
    | inl fits ↦ elim (Bool-cases (ethers.is_address (substring fixed k (k + key_length)))) [
      | inr bad ↦ inl (rw (fits, bad))
      | inl good ↦ inr (ground arith, good, rw (fits, good))
    ]
  ]

  substring_split : (s : Text) (i n : ℕ) → s ≡ take i s ++ (substring s i (i + n) ++ drop (i + n) s)
  substring_split s i n =
      let e : i + n - i ≡ n = omega arith in
      sym (
        rw e (
          ap (λ t. take i s ++ t)
            (ap (λ t. take n (drop i s) ++ t) (sym (drop-drop i n s))
              ∙ take-append-drop n (drop i s))
          ∙ take-append-drop i s))

  length-substring : (s : Text) (i n : ℕ) → i + n ≤ length s → length (substring s i (i + n)) ≡ n
  length-substring s i n h = omega (arith, length-take (i + n - i) (drop i s), length-drop i s)

  key_after_sound :
      (input : Text) (start_index : ℕ)
      → index_of ator_key_pattern (lower input) ≡ some start_index
      → (key_after ethers input (some start_index) ≡ [])
        ⊎ IsAtorKey ethers input (key_after ethers input (some start_index))
  unfolding key_after
  key_after_sound input start_index e =
      let fixed = replace_first input in
      let base = start_index + length ator_key_pattern in
      elim (Option-cases (index_from (text "0x") fixed base)) [
        | inl none_left ↦ inl (rw none_left refl)
        | inr (k, found) ↦
            let (above, starts) = index_from_sound (text "0x") fixed base k found in
            elim (key_at-cases fixed k) [
              | inl no_key ↦ inl (rw found no_key)
              | inr (fits, valid, key_eq) ↦ inr (record {
                before = take k fixed;
                candidate = substring fixed k (k + key_length);
                after = drop (k + key_length) fixed;
                split = substring_split fixed k key_length;
                length_eq = length-substring fixed k key_length fits;
                starts =
                    starts_with-take (text "0x") (drop k fixed) (k + key_length - k) (omega arith)
                      starts;
                valid = valid;
                key_eq = rw found key_eq;
                start_index = start_index;
                pattern = e;
                follows = omega (arith, length-take k fixed);
              })
            ]
      ]

  after_pattern :
      (input : Text) (found : Option ℕ)
      → index_of ator_key_pattern (lower input) ≡ found
      → (key_after ethers input found ≡ []) ⊎ IsAtorKey ethers input (key_after ethers input found)
  unfolding key_after
  after_pattern input none e = inl refl
  after_pattern input (some start_index) e = key_after_sound input start_index e

  -- What the function returns, unless it is the empty text, is the checksum form of a valid address of 42
  -- units, starting with '0x', which stands in the contact, with its first '0X' written '0x', somewhere
  -- after the first place where the contact in lower case has the pattern.
  pub extract_ator_key-IsAtorKey :
      (input : Text)
      → (extract_ator_key ethers (some input) ≡ [])
        ⊎ IsAtorKey ethers input (extract_ator_key ethers (some input))
  unfolding extract_ator_key
  extract_ator_key-IsAtorKey [] = inl refl
  extract_ator_key-IsAtorKey (c ∷ input) =
      after_pattern (c ∷ input) (index_of ator_key_pattern (lower (c ∷ input))) refl
