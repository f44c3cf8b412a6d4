-- ===== src/Verification/Hardware/Certificate.antt =====
-- `validateDeviceCertificate` of src/verification/hardware-verification.service.ts. The shell, the file system
-- and the upper case of other units than ASCII are parameters.
use operator_registry_contro.Prelude.{
  ℕ, zero, suc, ◌-◌, ◌<◌, ◌≡◌, Bool, true, false, ◌&&◌, ◌||◌, Option, none, some, List, [], ◌∷◌,
  ◌++◌, map, All, Text, text, ◌==◌, is_empty, length, take, drop, every, split, contains,
  starts_with, eqb, leb, if◌then◌else◌, Result, ok, err, Action, ◌>>=◌, pure, try_catch,
}
use operator_registry_contro.Prelude.Numbers.{trim}
use operator_registry_contro.Vault.{VaultService, VaultReadIssuerResponse, get_issuer_by_ski}
use operator_registry_contro.World.{World, Error, Call, ask}

-- `toUpperCase` in ASCII
abbrev pub upper_unit : ℕ → ℕ
upper_unit c = if leb b'a' c && leb c b'z' then c - 32 else c

pub record Machine (E : Type 0) : Type 0 where
  -- the output, or the message of the error for another exit code than 0
  pub exec_sync : Text → Call E Text
  pub tmpdir : Text
  pub sep : Text
  pub mkdtemp_sync : Text → Call E Text
  pub write_file_sync : Text → Text → Call E (Unit {0})
  pub rm_sync : Text → Call E (Unit {0})
  pub to_upper_case : Text → Text
  pub to_upper_case_ascii : (s : Text) → All (λ c. c < 128) s → to_upper_case s ≡ map upper_unit s

-- `findIndex`: none for -1
unfoldable pub find_index : (Text → Bool) → List Text → Option ℕ
find_index p [] = none
find_index p (line ∷ lines) =
    if p line then some 0 else elim (find_index p lines) [ none ↦ none | some i ↦ some (suc i) ]

unfoldable pub line_at : List Text → ℕ → Option Text
line_at [] i = none
line_at (line ∷ lines) zero = some line
line_at (line ∷ lines) (suc i) = line_at lines i

-- `lines[index + 1]`: without a header, the first line
unfoldable pub line_after : List Text → Option ℕ → Option Text
unfolding line_at
line_after lines none = line_at lines 0
line_after lines (some i) = line_at lines (suc i)

-- What `[0-9A-Z]` matches.
abbrev pub is_word : ℕ → Bool
is_word c = (leb b'0' c && leb c b'9') || (leb b'A' c && leb c b'Z')

-- `match(/URI:anon:\/\/([0-9A-Z]{40})/)`: what the group of the first match holds
unfoldable pub match_fingerprint : Text → Option Text
unfolding starts_with
match_fingerprint [] = none
match_fingerprint (c ∷ s) =
    if starts_with (text "URI:anon://") (c ∷ s)
      && (eqb (length (take 40 (drop 11 (c ∷ s)))) 40 && every is_word (take 40 (drop 11 (c ∷ s))))
    then some (take 40 (drop 11 (c ∷ s)))
    else match_fingerprint s

abbrev pub aki_header : Text
aki_header = text "X509v3 Authority Key Identifier:"

abbrev pub san_header : Text
san_header = text "X509v3 Subject Alternative Name:"

-- `if (!line)` is the case of none.
abbrev pub non_empty : Option Text → Option Text
non_empty none = none
non_empty (some line) = if is_empty line then none else some line

unfoldable pub aki_line : List Text → Option Text
unfolding find_index line_after contains
aki_line lines = non_empty (line_after lines (find_index (contains aki_header) lines))

-- `!sanHeaderLineIdx` holds for the index 0, and not for -1.
abbrev pub is_zero : Option ℕ → Bool
is_zero none = false
is_zero (some i) = eqb i 0

unfoldable pub san_line : List Text → Option Text
unfolding find_index line_after contains
san_line lines =
    let index = find_index (contains san_header) lines in
    if is_zero index then none else non_empty (line_after lines index)

abbrev pub and_match : Option Text → Option Text
and_match none = none
and_match (some line) = match_fingerprint line

-- the fingerprint of the certificate
unfoldable pub san_fingerprint : List Text → Option Text
unfolding san_line match_fingerprint
san_fingerprint lines = and_match (san_line lines)

unfoldable pub has_subject : List Text → Bool
unfolding find_index contains
has_subject lines = elim (find_index (contains (text "Subject: O = ANyONe")) lines) [
  | none ↦ false
  | some i ↦ true
]

module _ {E : Type 0} (x : Machine E) (vault : VaultService E) where
  abbrev pub same_fingerprint : Text → Option Text → Bool
  same_fingerprint fingerprint none = false
  same_fingerprint fingerprint (some found) = x.to_upper_case found == x.to_upper_case fingerprint

  -- What is read off the certificate once the issuer has verified it.
  unfoldable pub names_relay : Text → List Text → Bool
  unfolding has_subject san_fingerprint
  names_relay fingerprint lines =
      has_subject lines && same_fingerprint fingerprint (san_fingerprint lines)

  unfoldable pub show_command : Text → Text
  show_command cert = text "echo \"" ++ (cert ++ text "\" | openssl x509 -text -noout")

  unfoldable pub verify_command : Text → Text → Text
  verify_command cert path =
      text "echo \"" ++ (cert ++ (text "\" | openssl verify -CAfile " ++ path))

  -- the `try` block
  unfoldable pub verify_in : Text → Text → Text → Action (World E) Error Bool
  unfolding verify_command
  verify_in cert certificate dir = do
    written ← ask (x.write_file_sync (dir ++ (x.sep ++ text "issuer.crt")) certificate)
    output ← ask (x.exec_sync (verify_command cert (dir ++ (x.sep ++ text "issuer.crt"))))
    removed ← ask (x.rm_sync dir)
    pure true

  -- the `catch` block
  unfoldable pub clean_up : Text → Action (World E) Error Bool
  clean_up dir = do removed ← ask (x.rm_sync dir); pure false

  unfoldable pub verify_against : Text → Text → Text → Action (World E) Error Bool
  unfolding verify_in clean_up
  verify_against cert certificate dir =
      try_catch (verify_in cert certificate dir) (λ error. clean_up dir)

  unfoldable pub after_issuer :
      Text → Text → List Text → Option VaultReadIssuerResponse → Action (World E) Error Bool
  unfolding verify_against names_relay
  after_issuer cert fingerprint lines none w = pure false w
  after_issuer cert fingerprint lines (some issuer) w =
      (do
        dir ← ask (x.mkdtemp_sync (x.tmpdir ++ (x.sep ++ text "ca-cert-")))
        is_verified ← verify_against cert issuer.certificate dir
        pure (is_verified && names_relay fingerprint lines))
        w

  unfoldable pub after_aki : Text → Text → List Text → Option Text → Action (World E) Error Bool
  unfolding after_issuer get_issuer_by_ski trim
  after_aki cert fingerprint lines none w = pure false w
  after_aki cert fingerprint lines (some aki) w =
      (do issuer ← get_issuer_by_ski vault (trim aki); after_issuer cert fingerprint lines issuer) w

  abbrev pub after_show : Text → Text → Result Text Text → Action (World E) Error Bool
  after_show cert fingerprint (err message) = pure false
  after_show cert fingerprint (ok output) =
      after_aki cert fingerprint (split 10 output) (aki_line (split 10 output))

  -- `{ valid }`
  unfoldable pub validate_device_certificate : Text → Text → Action (World E) Error Bool
  unfolding after_aki aki_line show_command split
  validate_device_certificate cert fingerprint w =
      let (r, e) = x.exec_sync (show_command cert) w.env in
      after_show cert fingerprint r (record w { env = e })
