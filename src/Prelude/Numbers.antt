-- ===== src/Prelude/Numbers.antt =====
-- Integers, and `parseInt` of JavaScript on texts of code units.
use Prim.Native.Nat.{ℕ, zero, suc, ◌+◌, ◌-◌, ◌*◌}
use mathlib.Core.Bool.{Bool, true, false, ◌&&◌, ◌||◌}
use mathlib.Core.Option.{Option, none, some}
use mathlib.Core.List.{[], ◌∷◌}
use operator_registry_contro.Prelude.Tests.{ltb, leb, eqb, if◌then◌else◌}
use operator_registry_contro.Prelude.Words.{Text, text, is_empty, starts_with}
use operator_registry_contro.Prelude.Lists.{drop}

-- `negsuc n` is -(n + 1).
pub data ℤ : Type 0 where
  pos : ℕ → ℤ
  negsuc : ℕ → ℤ

abbrev pub negate : ℕ → ℤ
negate zero = pos 0
negate (suc n) = negsuc n

-- The white space and line ends that `trim` and `parseInt` skip.
abbrev pub is_space : ℕ → Bool
is_space c =
    (leb 9 c && leb c 13)
    || eqb c 32
    || eqb c 0xa0
    || eqb c 0x1680
    || (leb 0x2000 c && leb c 0x200a)
    || eqb c 0x2028
    || eqb c 0x2029
    || eqb c 0x202f
    || eqb c 0x205f
    || eqb c 0x3000
    || eqb c 0xfeff

unfoldable pub trim_start : Text → Text
trim_start [] = []
trim_start (c ∷ s) = if is_space c then trim_start s else c ∷ s

unfoldable pub trim_end : Text → Text
trim_end [] = []
trim_end (c ∷ s) = let t = trim_end s in if is_space c && is_empty t then [] else c ∷ t

unfoldable pub trim : Text → Text
unfolding trim_start trim_end
trim s = trim_end (trim_start s)

-- The value of a digit, up to 35.
unfoldable pub digit_value : ℕ → Option ℕ
digit_value c =
    if leb b'0' c && leb c b'9'
    then some (c - b'0')
    else if leb b'a' c && leb c b'z'
    then some (c - b'a' + 10)
    else if leb b'A' c && leb c b'Z'
    then some (c - b'A' + 10)
    else none

-- A digit to the base, or nothing.
unfoldable pub digit_in : ℕ → ℕ → Option ℕ
unfolding digit_value
digit_in base c = elim (digit_value c) [
  | none ↦ none
  | some d ↦ if ltb d base then some d else none
]

-- The number of the digits at the start, and whether there is one; what follows them is not read.
unfoldable pub read_digits : ℕ → Option ℕ → Text → Option ℕ
unfolding digit_in
read_digits base before [] = before
read_digits base before (c ∷ s) = elim (digit_in base c) [
  | none ↦ before
  | some d ↦ read_digits base (some (elim before [ none ↦ d | some n ↦ n * base + d ])) s
]

-- Digits that follow the sign: `0x` starts a number to the base 16, where the base is not given.
unfoldable pub read_magnitude : Text → Option ℕ
unfolding read_digits starts_with
read_magnitude s =
    if starts_with (text "0x") s || starts_with (text "0X") s
    then read_digits 16 none (drop 2 s)
    else read_digits 10 none s

-- `parseInt(s)` before it is rounded to a double; none for NaN. The sign, and the magnitude.
unfoldable pub parse_int : Text → Option (Bool × ℕ)
unfolding trim_start read_magnitude
parse_int s = elim (trim_start s) [
  | [] ↦ none
  | c ∷ t ↦
      if eqb c b'-'
      then elim (read_magnitude t) [ none ↦ none | some n ↦ some (true, n) ]
      else if eqb c b'+'
      then elim (read_magnitude t) [ none ↦ none | some n ↦ some (false, n) ]
      else elim (read_magnitude (c ∷ t)) [ none ↦ none | some n ↦ some (false, n) ]
]
