-- ===== src/Verification/Hardware/SerialProof.antt =====
-- `verifyRelaySerialProof` of src/verification/hardware-verification.service.ts. `toUtf8Bytes` of the package
-- ethers, `bytesToHex` and `p256.verify` of @noble/curves, and Node's hash are the parameter `Crypto`.
use operator_registry_contro.Prelude.{
  ℕ, zero, suc, ◌+◌, ◌-◌, ◌/◌, ◌%◌, Bool, true, false, ◌&&◌, ◌||◌, Option, none, some, List, [],
  ◌∷◌, ◌++◌, map, Text, lower, length, take, drop, replicate, eqb, ltb, if◌then◌else◌, Result, ok,
  err,
}
use operator_registry_contro.Prelude.Numbers.{trim_start, read_digits}
use operator_registry_contro.Util.EcPointCompress.{ec_point_compress}
use operator_registry_contro.Util.HexString.{is_hex_string_valid, is_fingerprint_valid}
use operator_registry_contro.World.{Error, type_error, as_error}

pub record Crypto : Type 0 where
  -- throws for `undefined` and for a text that is no well-formed UTF-16
  pub to_utf8_bytes : Option Text → Result Text (List ℕ)
  pub bytes_to_hex : List ℕ → Text
  -- the digest in hexadecimal
  pub sha256 : List ℕ → Text
  -- of a signature and a digest in hexadecimal, and a public key
  pub p256_verify : Text → Text → List ℕ → Result Text Bool

-- The arguments of the method.
pub record SerialProof : Type 0 where
  pub node_id : Option Text
  pub nft_id : ℕ
  pub device_serial : Option Text
  pub atec_serial : Text
  pub fingerprint : Text
  pub address : Text
  pub public_key : Option Text
  pub signature : Option Text

-- `n.toString(16)`, on fuel
abbrev pub hex_digit : ℕ → ℕ
hex_digit d = if ltb d 10 then b'0' + d else b'a' + (d - 10)

unfoldable pub hex_digits : ℕ → ℕ → Text
hex_digits zero n = []
hex_digits (suc fuel) n =
    let more = hex_digits fuel (n / 16) in
    if ltb n 16 then hex_digit n ∷ [] else more ++ hex_digit (n % 16) ∷ []

-- One round for each unit of the number is enough.
unfoldable pub to_hex : ℕ → Text
unfolding hex_digits
to_hex n = hex_digits (suc n) n

-- `s.padStart(4, '0')`
abbrev pub pad_start : Text → Text
pad_start s = replicate (4 - length s) b'0' ++ s

-- `[s[2], s[3], s[0], s[1]].join('')`; the text is never shorter.
abbrev pub lsb_order : Text → Text
lsb_order (a ∷ b ∷ c ∷ d ∷ s) = c ∷ d ∷ a ∷ b ∷ []
lsb_order s = drop 2 s ++ take 2 s

unfoldable pub nft_id_hex_lsb : ℕ → Text
unfolding to_hex
nft_id_hex_lsb nft_id = lsb_order (pad_start (to_hex nft_id))

-- What `.` does not match.
abbrev pub is_line_end : ℕ → Bool
is_line_end c = eqb c 10 || eqb c 13 || eqb c 0x2028 || eqb c 0x2029

-- `s.match(/.{1,2}/g) || []`, after a first unit of a match
unfoldable pub pairs : Option ℕ → Text → List Text
pairs none [] = []
pairs (some c) [] = (c ∷ []) ∷ []
pairs none (d ∷ s) = pairs (if is_line_end d then none else some d) s
pairs (some c) (d ∷ s) = (if is_line_end d then c ∷ [] else c ∷ d ∷ []) ∷ pairs none s

abbrev pub or_zero : Option ℕ → ℕ
or_zero none = 0
or_zero (some n) = n

-- `parseInt(byte, 16)` of one or two units, as `Uint8Array.from` keeps it: NaN is 0.
unfoldable pub parse_byte : Text → ℕ
unfolding trim_start read_digits
parse_byte s = elim (trim_start s) [
  | [] ↦ 0
  | c ∷ t ↦
      if eqb c b'-'
      then (256 - or_zero (read_digits 16 none t)) % 256
      else if eqb c b'+'
      then or_zero (read_digits 16 none t)
      else or_zero (read_digits 16 none (c ∷ t))
]

unfoldable pub bytes_of : Text → List ℕ
unfolding pairs parse_byte
bytes_of s = map parse_byte (pairs none s)

-- `if (!check) return false`
abbrev pub and_then : Result Error Bool → Result Error Bool → Result Error Bool
and_then (ok true) rest = rest
and_then (ok false) rest = ok false
and_then (err e) rest = err e

-- `value.length === n && isHexStringValid(value)`
unfoldable pub is_format_valid : ℕ → Option Text → Result Error Bool
is_format_valid n none = err type_error
is_format_valid n (some value) = ok (eqb (length value) n && is_hex_string_valid (some value) false)

-- A text that was checked, or the empty one.
abbrev pub checked : Option Text → Text
checked none = []
checked (some value) = value

unfoldable pub message_hex_string : Text → SerialProof → Text
unfolding nft_id_hex_lsb
message_hex_string node_id_hex p = lower (
    node_id_hex
    ++ (nft_id_hex_lsb p.nft_id
        ++ (checked p.device_serial ++ (p.atec_serial ++ (p.fingerprint ++ drop 2 p.address)))))

abbrev pub compressed : List ℕ → List ℕ
compressed bytes = ec_point_compress (take (length bytes / 2) bytes) (drop (length bytes / 2) bytes)

module _ (crypto : Crypto) where
  unfoldable pub is_signature_valid : Text → SerialProof → Option Text → Result Error Bool
  unfolding message_hex_string bytes_of
  is_signature_valid node_id_hex p none = err type_error
  is_signature_valid node_id_hex p (some public_key) = as_error (
      crypto.p256_verify (checked p.signature)
        (crypto.sha256 (bytes_of (message_hex_string node_id_hex p)))
        (compressed (bytes_of public_key)))

  unfoldable pub check_formats : SerialProof → Result Text (List ℕ) → Result Error Bool
  unfolding is_signature_valid is_format_valid
  check_formats p (err message) = as_error (err message)
  check_formats p (ok node_id_bytes) = and_then (is_format_valid 16 p.device_serial) (
      and_then (is_format_valid 18 (some p.atec_serial)) (
        and_then (is_format_valid 128 p.signature)
          (is_signature_valid (crypto.bytes_to_hex node_id_bytes) p p.public_key)))

  unfoldable pub verify_relay_serial_proof : SerialProof → Result Error Bool
  unfolding check_formats
  verify_relay_serial_proof p =
      and_then (ok (is_fingerprint_valid (some p.fingerprint)))
        (check_formats p (crypto.to_utf8_bytes p.node_id))
