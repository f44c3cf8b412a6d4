-- ===== src/Verification/Hardware/Authentic.antt =====
-- What `verifyRelaySerialProof` of src/verification/hardware-verification.service.ts accepts.
use operator_registry_contro.Prelude.{
  ℕ, ◌≡◌, ◌↔◌, refl, sym, ap, subst, Bool, true, false, ◌&&◌, Option, none, some, List, Text,
  length, eqb, arith, Result, ok, err, ok-injective,
}
use operator_registry_contro.Util.HexString.{is_hex_string_valid, is_fingerprint_valid}
use operator_registry_contro.Verification.Hardware.SerialProof.{
  Crypto, SerialProof, and_then, is_format_valid, checked, message_hex_string, compressed, bytes_of,
  is_signature_valid, check_formats, verify_relay_serial_proof,
}
use operator_registry_contro.World.{Error, as_error}

-- A text of hexadecimal digits, as long as it has to be.
pub record IsHex (n : ℕ) (value : Option Text) (digits : Text) : Type 0 where
  pub given : value ≡ some digits
  pub long : length digits ≡ n
  pub hexadecimal : is_hex_string_valid (some digits) false ≡ true

-- All formats are right, and the signature of the device's key for the message of these fields is.
pub record IsAuthentic (crypto : Crypto) (p : SerialProof) : Type 0 where
  pub fingerprint_valid : is_fingerprint_valid (some p.fingerprint) ≡ true
  pub node_id_bytes : List ℕ
  pub node_id_eq : crypto.to_utf8_bytes p.node_id ≡ ok node_id_bytes
  pub device_serial : Text
  pub device_serial_hex : IsHex 16 p.device_serial device_serial
  pub atec_serial_hex : IsHex 18 (some p.atec_serial) p.atec_serial
  pub signature : Text
  pub signature_hex : IsHex 128 p.signature signature
  pub public_key : Text
  pub public_key_eq : p.public_key ≡ some public_key
  pub signed :
      crypto.p256_verify signature
        (crypto.sha256 (bytes_of (message_hex_string (crypto.bytes_to_hex node_id_bytes) p)))
        (compressed (bytes_of public_key))
      ≡ ok true

and_then-true : (r s : Result Error Bool) → and_then r s ≡ ok true → (r ≡ ok true) × (s ≡ ok true)
and_then-true (ok true) s h = (refl, h)
and_then-true (ok false) s h = cc
and_then-true (err e) s h = cc

is_format_valid-IsHex :
    (n : ℕ) (value : Option Text)
    → is_format_valid n value ≡ ok true
    → (digits : Text) × IsHex n value digits
unfolding is_format_valid
is_format_valid-IsHex n none h = cc
is_format_valid-IsHex n (some digits) h =
    let valid : (eqb (length digits) n && is_hex_string_valid (some digits) false) ≡ true =
      ok-injective h in
    (digits, record { given = refl; long = ground arith; hexadecimal = ground arith })

IsHex-is_format_valid :
    (n : ℕ) (value : Option Text) (digits : Text)
    → IsHex n value digits
    → is_format_valid n value ≡ ok true
unfolding is_format_valid
IsHex-is_format_valid n value digits h =
    let long : length digits ≡ n = h.long in
    let same : eqb (length digits) n ≡ true = ground arith in rw (h.given, same, h.hexadecimal) refl

some-injective : {A : Type 0} {a b : A} → some a ≡ some b → a ≡ b
some-injective h = cc

IsHex-some : {n : ℕ} {s digits : Text} → IsHex n (some s) digits → IsHex n (some s) s
IsHex-some {n} {s} h = subst (λ d. IsHex n (some s) d) (sym (some-injective h.given)) h

as_error-true : (r : Result Text Bool) → as_error {A = Bool} r ≡ ok true → r ≡ ok true
as_error-true (ok b) h = cc
as_error-true (err e) h = cc

module _ (crypto : Crypto) (p : SerialProof) where
  signature-true :
      (node_id_hex : Text) (key : Option Text)
      → is_signature_valid crypto node_id_hex p key ≡ ok true
      → (public_key : Text) × (key ≡ some public_key)
        × (crypto.p256_verify
              (checked p.signature)
              (crypto.sha256 (bytes_of (message_hex_string node_id_hex p)))
              (compressed (bytes_of public_key))
            ≡ ok true)
  unfolding is_signature_valid
  signature-true node_id_hex none h = cc
  signature-true node_id_hex (some public_key) h = (public_key, refl, as_error-true _ h)

  formats-IsAuthentic :
      (bytes : Result Text (List ℕ))
      → is_fingerprint_valid (some p.fingerprint) ≡ true
      → crypto.to_utf8_bytes p.node_id ≡ bytes
      → check_formats crypto p bytes ≡ ok true
      → IsAuthentic crypto p
  unfolding check_formats
  formats-IsAuthentic (err message) fingerprint_valid read h = cc
  formats-IsAuthentic (ok node_id_bytes) fingerprint_valid read h =
      let (device, h1) = and_then-true _ _ h in
      let (atec, h2) = and_then-true _ _ h1 in
      let (sig, h3) = and_then-true _ _ h2 in
      let (device_serial, device_hex) = is_format_valid-IsHex 16 p.device_serial device in
      let (atec_serial, atec_hex) = is_format_valid-IsHex 18 (some p.atec_serial) atec in
      let (signature, signature_hex) = is_format_valid-IsHex 128 p.signature sig in
      let (public_key, key_eq, signed) =
        signature-true (crypto.bytes_to_hex node_id_bytes) p.public_key h3 in
      record {
        fingerprint_valid = fingerprint_valid;
        node_id_bytes = node_id_bytes;
        node_id_eq = read;
        device_serial = device_serial;
        device_serial_hex = device_hex;
        atec_serial_hex = IsHex-some atec_hex;
        signature = signature;
        signature_hex = signature_hex;
        public_key = public_key;
        public_key_eq = key_eq;
        signed =
            subst
              (λ s.
                crypto.p256_verify s
                  (crypto.sha256
                    (bytes_of (message_hex_string (crypto.bytes_to_hex node_id_bytes) p)))
                  (compressed (bytes_of public_key))
                ≡ ok true)
              (ap checked signature_hex.given) signed;
      }

  IsAuthentic-verifies : IsAuthentic crypto p → verify_relay_serial_proof crypto p ≡ ok true
  unfolding verify_relay_serial_proof check_formats is_signature_valid
  IsAuthentic-verifies a =
      rw
        (
          a.fingerprint_valid,
          a.node_id_eq,
          IsHex-is_format_valid 16 p.device_serial a.device_serial a.device_serial_hex,
          IsHex-is_format_valid 18 (some p.atec_serial) p.atec_serial a.atec_serial_hex,
          IsHex-is_format_valid 128 p.signature a.signature a.signature_hex,
          a.public_key_eq,
          a.signature_hex.given,
          a.signed,
        )
        refl

  verify_relay_serial_proof-IsAuthentic :
      verify_relay_serial_proof crypto p ≡ ok true → IsAuthentic crypto p
  unfolding verify_relay_serial_proof
  verify_relay_serial_proof-IsAuthentic h =
      let (valid, formats) = and_then-true _ _ h in
      formats-IsAuthentic (crypto.to_utf8_bytes p.node_id) (ok-injective valid) refl formats

  -- For every implementation of the cryptography and every proof, the check of a serial proof returns true
  -- exactly if it is authentic: the fingerprint is valid, the node id has bytes, the device serial, the
  -- ATEC serial and the signature are hexadecimal texts of 16, 18 and 128 digits, a public key is given,
  -- and the signature verifies, with the compressed key, for the hash of the message of these fields.
  pub verify_relay_serial_proof_iff :
      (verify_relay_serial_proof crypto p ≡ ok true) ↔ IsAuthentic crypto p
  verify_relay_serial_proof_iff = (verify_relay_serial_proof-IsAuthentic, IsAuthentic-verifies)
