-- ===== src/Validation/AtorKey/Written.antt =====
-- A contact in which `extractAtorKey` of src/validation/validation.service.ts finds its key.
use operator_registry_contro.Prelude.{
  ℕ, ◌+◌, ◌-◌, ◌≡◌, refl, sym, ap, ◌∙◌, true, some, List, [], ◌∷◌, ◌++◌, Text, text, starts_with,
  index_of, lower, length, take, drop, leb, arith, length-append,
}
use operator_registry_contro.Validation.AtorKey.{
  Ethers, ator_key_pattern, key_length, index_from, replace_first, substring, key_at, key_after,
  extract_ator_key,
}
use operator_registry_contro.Validation.AtorKey.Sound.{drop-drop}

take-append {ℓ} : {A : Type ℓ} (xs ys : List A) → take (length xs) (xs ++ ys) ≡ xs
take-append [] ys = refl
take-append (x ∷ xs) ys = ap (◌∷◌ x) (take-append xs ys)

drop-append {ℓ} : {A : Type ℓ} (xs ys : List A) → drop (length xs) (xs ++ ys) ≡ ys
drop-append [] ys = refl
drop-append (x ∷ xs) ys = drop-append xs ys

found_from :
    (p s : Text) (base i : ℕ)
    → index_of p (drop base s) ≡ some i
    → index_from p s base ≡ some (base + i)
unfolding index_from
found_from p s base i found = rw (index_from, found) refl

module _ (ethers : Ethers) where
  extract_lem :
      (input : Text)
      → extract_ator_key ethers (some input)
        ≡ key_after ethers input (index_of ator_key_pattern (lower input))
  unfolding extract_ator_key key_after index_of lower starts_with
  extract_lem [] = refl
  extract_lem (c ∷ input) = refl

  module _ (before mark gap key after : Text) where
    -- Something, the pattern, something, the key, something.
    abbrev pub contact : Text
    contact = (before ++ mark) ++ (gap ++ (key ++ after))

    module _ (mark_length : length mark ≡ length ator_key_pattern) where
      after_mark : drop (length before + length ator_key_pattern) contact ≡ gap ++ (key ++ after)
      after_mark =
          let e : length before + length ator_key_pattern ≡ length (before ++ mark) =
            omega (arith, length-append before mark) in
          rw e (drop-append (before ++ mark) (gap ++ (key ++ after)))

      at_key : drop (length before + length ator_key_pattern + length gap) contact ≡ key ++ after
      at_key =
          sym (drop-drop (length before + length ator_key_pattern) (length gap) contact)
          ∙ ap (drop (length gap)) after_mark
          ∙ drop-append gap (key ++ after)

      key_found :
          length key ≡ key_length
          → ethers.is_address key ≡ true
          → key_at ethers contact (some (length before + length ator_key_pattern + length gap))
            ≡ ethers.get_address key
      unfolding key_at
      key_found len valid =
          let i : ℕ = length before + length ator_key_pattern + length gap in
          let n : i + key_length - i ≡ length key = omega (arith, len) in
          let cut : substring contact i (i + key_length) ≡ key =
            ap (λ n. take n (drop i contact)) n
            ∙ ap (take (length key)) at_key
            ∙ take-append key after in
          let fits : leb (i + key_length) (length contact) ≡ true = ground (
            arith,
            length-append (before ++ mark) (gap ++ (key ++ after)),
            length-append before mark,
            length-append gap (key ++ after),
            length-append key after,
          ) in
          rw (fits, cut, valid) refl

    -- A key that is written in a contact is found: if the contact has the pattern for the first time, in
    -- capitals or not, at `mark`, and the first '0x' after it begins a valid address of 42 units, and nowhere
    -- is a '0X', then the result is that address in checksum form, whatever stands before the pattern,
    -- between pattern and key, and after the key.
    pub extract_ator_key-written :
        length mark ≡ length ator_key_pattern
        → index_of ator_key_pattern (lower contact) ≡ some (length before)
        → index_of (text "0x") (gap ++ (key ++ after)) ≡ some (length gap)
        → length key ≡ key_length
        → ethers.is_address key ≡ true
        → replace_first contact ≡ contact
        → extract_ator_key ethers (some contact) ≡ ethers.get_address key
    unfolding key_after
    extract_ator_key-written mark_length pattern first len valid same =
        extract_lem contact
        ∙ rw
            (
              pattern,
              same,
              found_from (text "0x") contact (length before + length ator_key_pattern) (length gap)
                  (ap (index_of (text "0x")) (after_mark mark_length) ∙ first),
            )
            (key_found mark_length len valid)
