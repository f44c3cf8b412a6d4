-- ===== src/Examples/Proofs.antt =====
-- The theorems on serial proofs, device certificates, configuration, processes and the log.
use operator_registry_contro.Prelude.{
  ℕ, ◌+◌, ◌/◌, ◌%◌, ◌≤◌, ◌≡◌, ◌↔◌, refl, true, false, none, some, List, [], ◌∷◌, ◌++◌, map, Text,
  text, text_eq, lower, count, length, drop, replicate, flatten, arith, Result, ok, err, Option,
  eqb, ◌==◌, if◌then◌else◌,
}
use operator_registry_contro.Util.HexString.{is_fingerprint_valid, is_hex_string_valid}
use operator_registry_contro.Verification.Dto.{VerificationResultDto, failed, already_verified}
use operator_registry_contro.Verification.Hardware.SerialProof.{
  SerialProof, checked, nft_id_hex_lsb, message_hex_string, bytes_of, verify_relay_serial_proof,
}
use operator_registry_contro.Verification.Hardware.MessageBytes.{
  hex_byte, none_left, byte, bytes_of-hex_byte,
}
use operator_registry_contro.Verification.Hardware.NftIdHex.{bytes_of-nft_id_hex_lsb}
use operator_registry_contro.Verification.Hardware.Authentic.{
  IsAuthentic, verify_relay_serial_proof_iff,
}
use operator_registry_contro.Verification.Hardware.Binding.{message-injective}
use operator_registry_contro.Verification.Hardware.Certificate.{
  Machine, upper_unit, validate_device_certificate,
}
use operator_registry_contro.Verification.Hardware.CertificateChecks.{
  IsIssued, validate_device_certificate-IsIssued,
}
use operator_registry_contro.Vault.{VaultService, VaultReadIssuerResponse, vault_service}
use operator_registry_contro.Bundling.{new_bundling_service, new_bundling_service-is_set}
use operator_registry_contro.Util.Config.{is_returned}
use operator_registry_contro.Cluster.{single_node, is_the_one}
use operator_registry_contro.Cluster.AppThreads.{
  fresh, parallelize, processes, parallelize-processes,
}
use operator_registry_contro.Verification.Log.{
  failed_verification, skipped_verified, total_verified, log_verification,
}
use operator_registry_contro.Examples.Services.{world}
use operator_registry_contro.Examples.Devices.{crypto}

abbrev pub upper_case : SerialProof
upper_case = record {
  node_id = some (text "node");
  nft_id = 7;
  device_serial = some (replicate 16 b'A');
  atec_serial = replicate 18 b'B';
  fingerprint = replicate 40 b'C';
  address = text "0x" ++ replicate 40 b'D';
  public_key = some (text "0102");
  signature = some (replicate 128 b'0');
}

abbrev lower_case : SerialProof
lower_case = record upper_case {
  device_serial = some (replicate 16 b'a');
  address = text "0x" ++ replicate 40 b'd';
}

verify_relay_serial_proof_iff_example :
    (verify_relay_serial_proof crypto upper_case ≡ ok true) ↔ IsAuthentic crypto upper_case
verify_relay_serial_proof_iff_example = verify_relay_serial_proof_iff crypto upper_case

upper_case-IsAuthentic : IsAuthentic crypto upper_case
unfolding verify_relay_serial_proof is_fingerprint_valid is_hex_string_valid
upper_case-IsAuthentic = (verify_relay_serial_proof_iff crypto upper_case).0 refl

lower_case-IsAuthentic : IsAuthentic crypto lower_case
unfolding verify_relay_serial_proof is_fingerprint_valid is_hex_string_valid
lower_case-IsAuthentic = (verify_relay_serial_proof_iff crypto lower_case).0 refl

message-injective_example :
    (text "ab" ≡ text "ab")
    × (upper_case.nft_id ≡ lower_case.nft_id)
    × (lower (checked upper_case.device_serial) ≡ lower (checked lower_case.device_serial))
    × (lower upper_case.atec_serial ≡ lower lower_case.atec_serial)
    × (upper_case.fingerprint ≡ lower_case.fingerprint)
    × (lower (drop 2 upper_case.address) ≡ lower (drop 2 lower_case.address))
unfolding is_hex_string_valid message_hex_string lower
message-injective_example =
    message-injective crypto upper_case lower_case upper_case-IsAuthentic lower_case-IsAuthentic
      (byte refl refl none_left) (byte refl refl none_left) refl (omega arith) (omega arith) refl
      refl refl refl refl

bytes_of-hex_byte_example : flatten (map hex_byte (bytes_of (text "0f"))) ≡ text "0f"
bytes_of-hex_byte_example = bytes_of-hex_byte {s = text "0f"} (byte refl refl none_left)

bytes_of-nft_id_hex_lsb_example : bytes_of (nft_id_hex_lsb 300) ≡ 300 % 256 ∷ 300 / 256 ∷ []
bytes_of-nft_id_hex_lsb_example = bytes_of-nft_id_hex_lsb 300 (omega arith)

-- A client for keys of 64 units.
abbrev authenticated : Text → Option Text → Text → Result Text Text
authenticated key gateway url =
    if eqb (length key) 64 then ok url else err (text "invalid private key")

-- All variables but the gateway are set.
abbrev without_gateway : Text → Option Text
without_gateway name =
    if name == text "BUNDLER_GATEWAY"
    then none
    else if name == text "BUNDLER_CONTROLLER_KEY"
    then some (replicate 64 b'a')
    else some (text "value")

new_bundling_service-is_set_example :
    is_returned (new_bundling_service authenticated without_gateway) ≡ true
unfolding text_eq
new_bundling_service-is_set_example = new_bundling_service-is_set authenticated without_gateway

parallelize-processes_example :
    (count
        (is_the_one single_node)
        (processes (parallelize true false (some (text "3")) 4 (fresh none)))
      ≡ 1)
    × (length (processes (parallelize true false (some (text "3")) 4 (fresh none))) ≤ 4)
parallelize-processes_example = parallelize-processes (some (text "3")) none 4 (omega arith)

abbrev two_results : List VerificationResultDto
two_results =
    record { result = failed; fingerprint = text "A" }
    ∷ record { result = already_verified; fingerprint = text "B" }
    ∷ []

log_of_two :
    log_verification two_results
    ≡ failed_verification (text "A" ∷ []) ∷ skipped_verified 1 ∷ total_verified 1 ∷ []
unfolding log_verification
log_of_two = refl

-- What openssl prints.
abbrev print : Text
print =
    text "X509v3 Authority Key Identifier:"
    ++ (10 ∷ text " AB:CD"
        ++ (10 ∷ text "Subject: O = ANyONe"
            ++ (10 ∷ text "X509v3 Subject Alternative Name:"
                ++ (10 ∷ text "URI:anon://" ++ replicate 40 b'A'))))

abbrev machine : Machine ℕ
machine = record {
  exec_sync = λ command n. (ok print, n + 1);
  tmpdir = text "/tmp";
  sep = text "/";
  mkdtemp_sync = λ prefix n. (ok prefix, n + 1);
  write_file_sync = λ path content n. (ok tt, n + 1);
  rm_sync = λ path n. (ok tt, n + 1);
  to_upper_case = λ s. map upper_unit s;
  to_upper_case_ascii = λ s h. refl;
}

abbrev issuer : VaultReadIssuerResponse
issuer = record {
  ca_chain = [];
  certificate = text "certificate";
  crl_distribution_points = [];
  issuer_id = text "id";
  issuer_name = text "name";
  issuing_certificates = [];
  key_id = text "key";
  leaf_not_after_behavior = text "err";
  manual_chain = none;
  ocsp_servers = [];
  revocation_signature_algorithm = text "SHA256";
  revoked = false;
  usage = text "read-only";
}

abbrev vault : VaultService ℕ
vault = vault_service (λ name. none) (λ path token n. (ok (some issuer), n + 1))

validate_device_certificate-IsIssued_example :
    IsIssued machine vault (text "cert") (replicate 40 b'a') world
unfolding validate_device_certificate vault_service text_eq
validate_device_certificate-IsIssued_example =
    validate_device_certificate-IsIssued machine vault (text "cert") (replicate 40 b'a') world refl
