-- ===== src/Util/HexString.antt =====
-- src/util/hex-string.ts, src/util/fingerprint.ts and src/util/address-evm.ts.
use operator_registry_contro.Prelude.{
  ℕ, Bool, true, false, ◌&&◌, Option, none, some, [], ◌∷◌, Text, text, eqb, every, length,
  if◌then◌else◌,
}

abbrev pub upper_hex_chars : Text
upper_hex_chars = text "0123456789ABCDEF"

abbrev pub hex_chars : Text
hex_chars = text "0123456789ABCDEFabcdef"

-- `chars.includes(c)` for one code unit
unfoldable pub has_char : Text → ℕ → Bool
has_char [] c = false
has_char (d ∷ chars) c = if eqb d c then true else has_char chars c

-- `(uppercase ? UPPER_HEX_CHARS : HEX_CHARS)`
abbrev pub chars_of : Bool → Text
chars_of true = upper_hex_chars
chars_of false = hex_chars

-- An empty text is refused as a missing one is.
unfoldable pub is_hex_string_valid : Option Text → Bool → Bool
unfolding has_char
is_hex_string_valid none uppercase = false
is_hex_string_valid (some []) uppercase = false
is_hex_string_valid (some (c ∷ hex)) uppercase = every (has_char (chars_of uppercase)) (c ∷ hex)

unfoldable pub is_fingerprint_valid : Option Text → Bool
unfolding has_char
is_fingerprint_valid none = false
is_fingerprint_valid (some fingerprint) =
    eqb (length fingerprint) 40 && every (has_char upper_hex_chars) fingerprint

unfoldable pub is_address_valid : Option Text → Bool
unfolding is_hex_string_valid
is_address_valid none = false
is_address_valid (some address) = eqb (length address) 40 && is_hex_string_valid (some address) true
