-- ===== src/Verification/Hardware/NftIdHex.antt =====
-- The four digits of a token's number in the message of a serial proof
-- (`verifyRelaySerialProof` of src/verification/hardware-verification.service.ts).
use operator_registry_contro.Prelude.{
  ℕ, zero, suc, ◌+◌, ◌*◌, ◌/◌, ◌%◌, ◌<◌, ◌≤◌, ◌≡◌, refl, ◌∙◌, true, false, [], ◌∷◌, ◌++◌, length,
  Text, ltb, Bool-cases, inl, inr, arith,
}
use operator_registry_contro.Verification.Hardware.SerialProof.{
  hex_digit, hex_digits, to_hex, nft_id_hex_lsb, pairs, parse_byte, bytes_of,
}
use operator_registry_contro.Verification.Hardware.MessageBytes.{
  is_lower_hex, value, IsBytes, none_left, byte, parse_byte-pair, pairs-pair,
}

hex_digits-fuel : (f g n : ℕ) → n < f → n < g → hex_digits f n ≡ hex_digits g n
unfolding hex_digits
hex_digits-fuel zero g n below below' = absurd (omega (arith, below))
hex_digits-fuel (suc f) zero n below below' = absurd (omega (arith, below'))
hex_digits-fuel (suc f) (suc g) n below below' = elim (Bool-cases (ltb n 16)) [
  | inl small ↦ rw (small, hex_digits) refl
  | inr large ↦
      let big : 16 ≤ n = ground arith in
      rw (large, hex_digits, hex_digits-fuel f g (n / 16) (omega (arith, big)) (omega (arith, big)))
        refl
]

to_hex-small : (n : ℕ) → n < 16 → to_hex n ≡ hex_digit n ∷ []
unfolding to_hex hex_digits
to_hex-small n below =
    let small : ltb n 16 ≡ true = ground arith in rw (small, to_hex, hex_digits) refl

to_hex-large : (n : ℕ) → 16 ≤ n → to_hex n ≡ to_hex (n / 16) ++ hex_digit (n % 16) ∷ []
unfolding to_hex hex_digits
to_hex-large n above =
    let large : ltb n 16 ≡ false = ground arith in
    rw
      (
        large,
        to_hex,
        hex_digits,
        hex_digits-fuel n (suc (n / 16)) (n / 16) (omega (arith, above)) (omega arith),
      )
      refl

-- Four digits in the order of the message.
abbrev four : ℕ → ℕ → ℕ → ℕ → Text
four a b c d = hex_digit a ∷ hex_digit b ∷ hex_digit c ∷ hex_digit d ∷ []

four-eq :
    {a b c d a' b' c' d' : ℕ} → a ≡ a' → b ≡ b' → c ≡ c' → d ≡ d' → four a b c d ≡ four a' b' c' d'
four-eq ha hb hc hd = cc

nft_id_hex_lsb-four :
    (n : ℕ) → n < 65536 → nft_id_hex_lsb n ≡ four (n / 16 % 16) (n % 16) (n / 4096) (n / 256 % 16)
unfolding nft_id_hex_lsb
nft_id_hex_lsb-four n below = elim (Bool-cases (ltb n 16)) [
  | inl small ↦
      let h : n < 16 = ground arith in
      rw (to_hex-small n h, nft_id_hex_lsb)
        (four-eq {a = 0} {b = n} {c = 0} {d = 0} (omega (arith, h)) (omega (arith, h))
          (omega (arith, h)) (omega (arith, h)))
  | inr above ↦ elim (Bool-cases (ltb n 256)) [
    | inl small ↦
        let h : n < 256 = ground arith in
        let l : 16 ≤ n = ground arith in
        rw (to_hex-large n l, to_hex-small (n / 16) (omega (arith, h)), nft_id_hex_lsb)
          (four-eq {a = n / 16} {b = n % 16} {c = 0} {d = 0} (omega (arith, h)) refl
            (omega (arith, h)) (omega (arith, h)))
    | inr above' ↦ elim (Bool-cases (ltb n 4096)) [
      | inl small ↦
          let h : n < 4096 = ground arith in
          let l : 256 ≤ n = ground arith in
          rw
            (
              to_hex-large n (omega (arith, l)),
              to_hex-large (n / 16) (omega (arith, l)),
              to_hex-small (n / 16 / 16) (omega (arith, h)),
              nft_id_hex_lsb,
            )
            (four-eq {a = n / 16 % 16} {b = n % 16} {c = 0} {d = n / 16 / 16} refl refl
              (omega (arith, h)) (omega (arith, h)))
      | inr large ↦
          let l : 4096 ≤ n = ground arith in
          rw
            (
              to_hex-large n (omega (arith, l)),
              to_hex-large (n / 16) (omega (arith, l)),
              to_hex-large (n / 16 / 16) (omega (arith, l)),
              to_hex-small (n / 16 / 16 / 16) (omega (arith, below)),
              nft_id_hex_lsb,
            )
            (four-eq {a = n / 16 % 16} {b = n % 16} {c = n / 16 / 16 / 16} {d = n / 16 / 16 % 16}
              refl refl (omega arith) (omega arith))
    ]
  ]
]

hex_digit-IsLowerHex : (d : ℕ) → d < 16 → is_lower_hex (hex_digit d) ≡ true
hex_digit-IsLowerHex d small = ground arith

value-hex_digit : (d : ℕ) → d < 16 → value (hex_digit d) ≡ d
value-hex_digit d small = ground arith

pub nft_id_hex_lsb-IsBytes : (n : ℕ) → n < 65536 → IsBytes (nft_id_hex_lsb n)
nft_id_hex_lsb-IsBytes n below = rw (nft_id_hex_lsb-four n below) (
    byte (hex_digit-IsLowerHex (n / 16 % 16) (omega arith))
      (hex_digit-IsLowerHex (n % 16) (omega arith))
      (byte (hex_digit-IsLowerHex (n / 4096) (omega (arith, below)))
        (hex_digit-IsLowerHex (n / 256 % 16) (omega arith)) none_left))

pub length-nft_id_hex_lsb : (n : ℕ) → n < 65536 → length (nft_id_hex_lsb n) ≡ 4
length-nft_id_hex_lsb n below = rw (nft_id_hex_lsb-four n below) refl

byte-four : (a b : ℕ) → a < 16 → b < 16 → parse_byte (hex_digit a ∷ hex_digit b ∷ []) ≡ a * 16 + b
byte-four a b ha hb =
    parse_byte-pair (hex_digit a) (hex_digit b) (hex_digit-IsLowerHex a ha)
      (hex_digit-IsLowerHex b hb)
    ∙ rw (value-hex_digit a ha, value-hex_digit b hb) refl

bytes_of-four :
    (a b c d : ℕ)
    → a < 16
    → b < 16
    → c < 16
    → d < 16
    → bytes_of (four a b c d) ≡ (a * 16 + b) ∷ (c * 16 + d) ∷ []
unfolding bytes_of pairs
bytes_of-four a b c d ha hb hc hd =
    rw
      (
        bytes_of,
        pairs-pair (hex_digit a) (hex_digit b) (hex_digit c ∷ hex_digit d ∷ [])
            (hex_digit-IsLowerHex a ha) (hex_digit-IsLowerHex b hb),
        pairs-pair (hex_digit c) (hex_digit d) [] (hex_digit-IsLowerHex c hc)
            (hex_digit-IsLowerHex d hd),
        byte-four a b ha hb,
        byte-four c d hc hd,
      )
      refl

two_bytes-eq : {a b c d : ℕ} → a ≡ c → b ≡ d → a ∷ b ∷ [] ≡ c ∷ d ∷ []
two_bytes-eq h k = cc

-- For a number of a token that is less than 65536, the four digits that the message has for it are read
-- as the two bytes of the number, the lower one first.
pub bytes_of-nft_id_hex_lsb :
    (n : ℕ) → n < 65536 → bytes_of (nft_id_hex_lsb n) ≡ n % 256 ∷ n / 256 ∷ []
bytes_of-nft_id_hex_lsb n below = rw (nft_id_hex_lsb-four n below) (
    bytes_of-four (n / 16 % 16) (n % 16) (n / 4096) (n / 256 % 16) (omega arith) (omega arith)
      (omega (arith, below)) (omega arith)
    ∙ two_bytes-eq (omega arith) (omega arith))
