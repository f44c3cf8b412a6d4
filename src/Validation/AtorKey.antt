-- ===== src/Validation/AtorKey.antt =====
-- `extractAtorKey` of src/validation/validation.service.ts. `isAddress` and `getAddress` of the package
-- ethers are the parameter `Ethers`.
pub mod Sound
pub mod Written
use operator_registry_contro.Prelude.{
  ℕ, zero, suc, ◌+◌, ◌-◌, Bool, true, false, Option, none, some, List, [], ◌∷◌, ◌++◌, Text, text,
  starts_with, index_of, lower, length, take, drop, leb, if◌then◌else◌,
}

pub record Ethers : Type 0 where
  pub is_address : Text → Bool
  pub get_address : Text → Text

abbrev pub ator_key_pattern : Text
ator_key_pattern = text "@anon:"

abbrev pub key_length : ℕ
key_length = 42

-- `s.indexOf(p, base)`: the first place from `base` on; all of `s` is skipped if `base` is larger.
unfoldable pub index_from : Text → Text → ℕ → Option ℕ
unfolding index_of
index_from p s base = elim (index_of p (drop base s)) [ none ↦ none | some i ↦ some (base + i) ]

-- `s.replace('0X', '0x')`: the first occurrence only.
unfoldable pub replace_first : Text → Text
replace_first [] = []
replace_first (c ∷ s) =
    if starts_with (text "0X") (c ∷ s) then text "0x" ++ drop 1 s else c ∷ replace_first s

-- `s.substring(i, j)` for `i ≤ j`
abbrev pub substring : Text → ℕ → ℕ → Text
substring s i j = take (j - i) (drop i s)

module _ (ethers : Ethers) where
  -- from `keyIndex` on
  pub key_at : Text → Option ℕ → Text
  key_at fixed none = []
  key_at fixed (some key_index) =
      if leb (key_index + key_length) (length fixed)
      then (if ethers.is_address (substring fixed key_index (key_index + key_length))
          then ethers.get_address (substring fixed key_index (key_index + key_length))
          else [])
      else []

  -- from `startIndex` on
  pub key_after : Text → Option ℕ → Text
  unfolding key_at index_from replace_first
  key_after input none = []
  key_after input (some start_index) =
      key_at (replace_first input)
        (index_from (text "0x") (replace_first input) (start_index + length ator_key_pattern))

  -- An empty input has no pattern, and takes the same way out.
  unfoldable pub extract_ator_key : Option Text → Text
  unfolding key_after
  extract_ator_key none = []
  extract_ator_key (some []) = []
  extract_ator_key (some input) = key_after input (index_of ator_key_pattern (lower input))
