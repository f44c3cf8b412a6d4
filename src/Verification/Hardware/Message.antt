-- ===== src/Verification/Hardware/Message.antt =====
-- The message of a serial proof tells its fields apart
-- (`verifyRelaySerialProof` of src/verification/hardware-verification.service.ts).
use operator_registry_contro.Prelude.{
  ℕ, zero, suc, ◌+◌, ◌*◌, ◌≡◌, refl, ◌∙◌, sym, ap, Bool, true, ◌&&◌, ◌||◌, [], ◌∷◌, ◌++◌, map,
  flatten, length, every, Text, lower, lower_unit, leb, arith, if◌then◌else◌,
}
use mathlib.Core.List.{append_assoc}
use operator_registry_contro.Util.HexString.{hex_chars, has_char, upper_hex_chars}
use operator_registry_contro.Verification.Hardware.SerialProof.{bytes_of}
use operator_registry_contro.Verification.Hardware.MessageBytes.{
  is_lower_hex, hex_byte, IsBytes, none_left, byte, bytes_of-hex_byte,
}

abbrev pub is_hex : ℕ → Bool
is_hex c = is_lower_hex c || (leb b'A' c && leb c b'F')

pub has_char-IsHex : (c : ℕ) → has_char hex_chars c ≡ true → is_hex c ≡ true
unfolding has_char
has_char-IsHex c h = ground arith

pub has_upper_char-IsHex : (c : ℕ) → has_char upper_hex_chars c ≡ true → is_hex c ≡ true
unfolding has_char
has_upper_char-IsHex c h = ground arith

abbrev pub lowered : ℕ → ℕ
lowered c = if leb b'A' c && leb c b'Z' then c + 32 else c

lower_unit-lowered : (c : ℕ) → is_hex c ≡ true → lower_unit c ≡ lowered c ∷ []
lower_unit-lowered c h = ground arith

lowered-IsLowerHex : (c : ℕ) → is_hex c ≡ true → is_lower_hex (lowered c) ≡ true
lowered-IsLowerHex c h = ground arith

lower_unit-same : (c : ℕ) → is_lower_hex c ≡ true → lower_unit c ≡ c ∷ []
lower_unit-same c h = ground arith

pub lower-append : (s t : Text) → lower (s ++ t) ≡ lower s ++ lower t
unfolding lower
lower-append [] t = refl
lower-append (c ∷ s) t =
    rw (lower-append s t) (sym (append_assoc (lower_unit c) (lower s) (lower t)))

-- Texts of the same length, each followed by something, are told apart.
pub append-injective : (s t u v : Text) → length s ≡ length t → s ++ u ≡ t ++ v → (s ≡ t) × (u ≡ v)
append-injective [] [] u v same h = (refl, h)
append-injective [] (d ∷ t) u v same h = absurd (omega (arith, same))
append-injective (c ∷ s) [] u v same h = absurd (omega (arith, same))
append-injective (c ∷ s) (d ∷ t) u v same h =
    let heads : c ≡ d = cc in
    let tails : s ++ u ≡ t ++ v = cc in
    let (eq, rest) = append-injective s t u v (omega (arith, same)) tails in (cc, rest)

pub every-lowered : (s : Text) → every is_hex s ≡ true → lower s ≡ map lowered s
unfolding lower
every-lowered [] h = refl
every-lowered (c ∷ s) h =
    let here : is_hex c ≡ true = ground arith in
    let there : every is_hex s ≡ true = ground arith in
    rw (lower_unit-lowered c here, every-lowered s there) refl

pub length-lower : (s : Text) → every is_hex s ≡ true → length (lower s) ≡ length s
unfolding lower
length-lower [] h = refl
length-lower (c ∷ s) h =
    let here : is_hex c ≡ true = ground arith in
    let there : every is_hex s ≡ true = ground arith in
    rw (lower_unit-lowered c here) (omega (arith, length-lower s there))

pub lower-IsBytes :
    (k : ℕ) (s : Text) → length s ≡ 2 * k → every is_hex s ≡ true → IsBytes (lower s)
unfolding lower
lower-IsBytes k [] long h = none_left
lower-IsBytes k (c ∷ []) long h = absurd (omega (arith, long))
lower-IsBytes zero (c ∷ d ∷ s) long h = absurd (omega (arith, long))
lower-IsBytes (suc k) (c ∷ d ∷ s) long h =
    let first : is_hex c ≡ true = ground arith in
    let second : is_hex d ≡ true = ground arith in
    let there : every is_hex s ≡ true = ground arith in
    rw (lower_unit-lowered c first, lower_unit-lowered d second)
      (byte (lowered-IsLowerHex c first) (lowered-IsLowerHex d second)
        (lower-IsBytes k s (omega (arith, long)) there))

pub IsBytes-append : {s t : Text} → IsBytes s → IsBytes t → IsBytes (s ++ t)
IsBytes-append none_left k = k
IsBytes-append (byte ha hb h) k = byte ha hb (IsBytes-append h k)

pub lower-same : {s : Text} → IsBytes s → lower s ≡ s
unfolding lower
lower-same none_left = refl
lower-same (byte {a} {b} {s} ha hb h) =
    rw (lower_unit-same a ha, lower_unit-same b hb, lower-same h) refl

-- Bytes tell the digits apart.
pub bytes_of-injective : {s t : Text} → IsBytes s → IsBytes t → bytes_of s ≡ bytes_of t → s ≡ t
bytes_of-injective hs ht h =
    sym (bytes_of-hex_byte hs) ∙ ap (λ bs. flatten (map hex_byte bs)) h ∙ bytes_of-hex_byte ht
