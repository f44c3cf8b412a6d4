-- ===== src/Verification/Hardware/MessageBytes.antt =====
-- The bytes that are hashed for a serial proof keep the digits of its message
-- (src/verification/hardware-verification.service.ts).
use operator_registry_contro.Prelude.{
  ℕ, ◌+◌, ◌*◌, ◌/◌, ◌%◌, ◌-◌, ◌<◌, ◌≡◌, refl, ap, Bool, true, false, ◌&&◌, ◌||◌, none, some, [],
  ◌∷◌, map, flatten, Text, leb, ltb, eqb, arith, if◌then◌else◌,
}
use operator_registry_contro.Prelude.Numbers.{
  trim_start, read_digits, digit_in, digit_value, is_space,
}
use operator_registry_contro.Verification.Hardware.SerialProof.{
  hex_digit, is_line_end, pairs, parse_byte, bytes_of,
}

-- A digit of `toLowerCase` of a hexadecimal text.
abbrev pub is_lower_hex : ℕ → Bool
is_lower_hex c = (leb b'0' c && leb c b'9') || (leb b'a' c && leb c b'f')

abbrev pub value : ℕ → ℕ
value c = if leb c b'9' then c - b'0' else c - b'a' + 10

pub hex_digit-value : (c : ℕ) → is_lower_hex c ≡ true → hex_digit (value c) ≡ c
hex_digit-value c h = ground arith

value-small : (c : ℕ) → is_lower_hex c ≡ true → value c < 16
value-small c h = ground arith

digit_value-value : (c : ℕ) → is_lower_hex c ≡ true → digit_value c ≡ some (value c)
unfolding digit_value
digit_value-value c h = ground arith

digit_in-value : (c : ℕ) → is_lower_hex c ≡ true → digit_in 16 c ≡ some (value c)
unfolding digit_in
digit_in-value c h =
    let small : ltb (value c) 16 ≡ true = ground (arith, value-small c h) in
    rw (digit_value-value c h, small, digit_in) refl

is_space-false : (c : ℕ) → is_lower_hex c ≡ true → is_space c ≡ false
is_space-false c h = ground arith

is_line_end-false : (c : ℕ) → is_lower_hex c ≡ true → is_line_end c ≡ false
is_line_end-false c h = ground arith

is_minus-false : (c : ℕ) → is_lower_hex c ≡ true → eqb c b'-' ≡ false
is_minus-false c h = ground arith

is_plus-false : (c : ℕ) → is_lower_hex c ≡ true → eqb c b'+' ≡ false
is_plus-false c h = ground arith

pub parse_byte-pair :
    (a b : ℕ)
    → is_lower_hex a ≡ true
    → is_lower_hex b ≡ true
    → parse_byte (a ∷ b ∷ []) ≡ value a * 16 + value b
unfolding parse_byte trim_start read_digits
parse_byte-pair a b ha hb =
    rw
      (
        is_space-false a ha,
        is_minus-false a ha,
        is_plus-false a ha,
        digit_in-value a ha,
        digit_in-value b hb,
        parse_byte,
        trim_start,
        read_digits,
      )
      refl

-- The two digits of a byte.
unfoldable pub hex_byte : ℕ → Text
hex_byte b = hex_digit (b / 16) ∷ hex_digit (b % 16) ∷ []

hex_byte-pair :
    (a b : ℕ)
    → is_lower_hex a ≡ true
    → is_lower_hex b ≡ true
    → hex_byte (value a * 16 + value b) ≡ a ∷ b ∷ []
unfolding hex_byte
hex_byte-pair a b ha hb =
    let high : (value a * 16 + value b) / 16 ≡ value a =
      omega (arith, value-small a ha, value-small b hb) in
    let low : (value a * 16 + value b) % 16 ≡ value b =
      omega (arith, value-small a ha, value-small b hb) in
    rw (high, low, hex_digit-value a ha, hex_digit-value b hb) refl

-- Texts of an even number of digits.
pub data IsBytes : Text → Type 0 where
  none_left : IsBytes []
  byte :
      {a b : ℕ} {s : Text}
      → is_lower_hex a ≡ true
      → is_lower_hex b ≡ true
      → IsBytes s
      → IsBytes (a ∷ b ∷ s)

pub pairs-pair :
    (a b : ℕ) (s : Text)
    → is_lower_hex a ≡ true
    → is_lower_hex b ≡ true
    → pairs none (a ∷ b ∷ s) ≡ (a ∷ b ∷ []) ∷ pairs none s
unfolding pairs
pairs-pair a b s ha hb = rw (is_line_end-false a ha, is_line_end-false b hb, pairs) refl

-- For a text of an even number of lower-case hexadecimal digits, writing the bytes that are read from it,
-- two digits for each, gives the text again.
pub bytes_of-hex_byte : {s : Text} → IsBytes s → flatten (map hex_byte (bytes_of s)) ≡ s
unfolding bytes_of pairs
bytes_of-hex_byte none_left = refl
bytes_of-hex_byte (byte {a} {b} {s} ha hb rest) =
    rw (pairs-pair a b s ha hb, bytes_of, parse_byte-pair a b ha hb, hex_byte-pair a b ha hb)
      (ap (λ t. a ∷ b ∷ t) (bytes_of-hex_byte rest))
