-- ===== src/Verification/Hardware/CertificateChecks.antt =====
-- What `validateDeviceCertificate` of src/verification/hardware-verification.service.ts has checked of a
-- certificate that it calls valid.
use operator_registry_contro.Prelude.{
  ◌≡◌, refl, ◌∙◌, sym, ap, Bool, true, false, ◌&&◌, Option, none, some, List, ◌++◌, Text, text,
  ==_iff, split, arith, Result, ok, err, Action, caught, continue-eq-ok, ok-injective, ◌>>=◌, pure,
}
use operator_registry_contro.Prelude.Numbers.{trim}
use operator_registry_contro.Vault.{
  VaultService, VaultReadIssuerResponse, issuer_path, caught_issuer, get_issuer_by_ski,
}
use operator_registry_contro.Verification.Hardware.Certificate.{
  Machine, aki_line, san_fingerprint, has_subject, same_fingerprint, names_relay, show_command,
  verify_command, verify_in, clean_up, verify_against, after_issuer, after_aki, after_show,
  validate_device_certificate,
}
use operator_registry_contro.World.{World, as_error-ok, ask}

caught-true :
    {S X : Type 0} (r : Result X Bool) (h : X → Action S X Bool) (s : S)
    → ((x : X) → ¬ ((h x s).0 ≡ ok true))
    → (caught r h s).0 ≡ ok true
    → r ≡ ok true
caught-true (ok b) h s never e = e
caught-true (err x) h s never e = absurd (never x e)

false_ne_true : ¬ (false ≡ true)
false_ne_true h = cc

caught_issuer-some :
    (r : Result Text (Option VaultReadIssuerResponse)) {issuer : VaultReadIssuerResponse}
    → caught_issuer r ≡ some issuer
    → r ≡ ok (some issuer)
caught_issuer-some (ok o) h = ap (λ o. ok o) h
caught_issuer-some (err message) h = cc

module _ {E : Type 0} (x : Machine E) (vault : VaultService E) (cert fingerprint : Text) where
  -- The outside after the certificate was printed and the vault asked for the issuer.
  abbrev pub asked : Text → World E → E
  asked aki w =
      (vault.get (issuer_path (trim aki)) vault.vault_token
        (x.exec_sync (show_command x vault cert) w.env).1).1

  -- and after the directory for its certificate was made
  abbrev pub made_dir : Text → World E → E
  made_dir aki w = (x.mkdtemp_sync (x.tmpdir ++ (x.sep ++ text "ca-cert-")) (asked aki w)).1

  -- The certificate was printed, the vault gave an issuer, the issuer's certificate was written to a file of
  -- the new directory, and then openssl verified the certificate against that file; it names the relay.
  pub record IsIssued (w : World E) : Type 0 where
    pub output : Text
    pub shown : (x.exec_sync (show_command x vault cert) w.env).0 ≡ ok output
    pub aki : Text
    pub aki_eq : aki_line (split 10 output) ≡ some aki
    pub issuer : VaultReadIssuerResponse
    pub issuer_eq :
        (vault.get
          (issuer_path (trim aki))
          vault.vault_token
          (x.exec_sync (show_command x vault cert) w.env).1).0
        ≡ ok (some issuer)
    pub dir : Text
    pub made : (x.mkdtemp_sync (x.tmpdir ++ (x.sep ++ text "ca-cert-")) (asked aki w)).0 ≡ ok dir
    pub written :
        (x.write_file_sync
          (dir ++ (x.sep ++ text "issuer.crt"))
          issuer.certificate
          (made_dir aki w)).0
        ≡ ok tt
    pub verdict : Text
    pub verified :
        (x.exec_sync
          (verify_command x vault cert (dir ++ (x.sep ++ text "issuer.crt")))
          (x.write_file_sync
            (dir ++ (x.sep ++ text "issuer.crt"))
            issuer.certificate
            (made_dir aki w)).1).0
        ≡ ok verdict
    pub subject : has_subject (split 10 output) ≡ true
    pub san : Text
    pub san_eq : san_fingerprint (split 10 output) ≡ some san
    pub same : x.to_upper_case san ≡ x.to_upper_case fingerprint

  clean_up-false : (dir : Text) (w : World E) → ¬ ((clean_up x vault dir w).0 ≡ ok true)
  unfolding clean_up
  clean_up-false dir w h =
      let (u, removed, never) =
        continue-eq-ok (ask (x.rm_sync dir) w).0 (λ u. pure false) (ask (x.rm_sync dir) w).1 h in
      absurd (false_ne_true (ok-injective never))

  verify_in-true :
      (certificate dir : Text) (w : World E)
      → (verify_in x vault cert certificate dir w).0 ≡ ok true
      → ((x.write_file_sync (dir ++ (x.sep ++ text "issuer.crt")) certificate w.env).0 ≡ ok tt)
        × (verdict : Text) × ((x.exec_sync
              (verify_command x vault cert (dir ++ (x.sep ++ text "issuer.crt")))
              (x.write_file_sync (dir ++ (x.sep ++ text "issuer.crt")) certificate w.env).1).0
            ≡ ok verdict)
  unfolding verify_in
  verify_in-true certificate dir w h =
      let path : Text = dir ++ (x.sep ++ text "issuer.crt") in
      let write = ask (x.write_file_sync path certificate) w in
      let (u, written, h1) =
        continue-eq-ok write.0
          (λ u. ask (x.exec_sync (verify_command x vault cert path)) >>= λ output.
            ask (x.rm_sync dir) >>= λ removed. pure true)
          write.1 h in
      let run = ask (x.exec_sync (verify_command x vault cert path)) write.1 in
      let (verdict, verified, h2) =
        continue-eq-ok run.0 (λ output. ask (x.rm_sync dir) >>= λ removed. pure true) run.1 h1 in
      (
        as_error-ok (x.write_file_sync path certificate w.env).0 written,
        verdict,
        as_error-ok (x.exec_sync (verify_command x vault cert path) write.1.env).0 verified,
      )

  verify_against-true :
      (certificate dir : Text) (w : World E)
      → (verify_against x vault cert certificate dir w).0 ≡ ok true
      → (verify_in x vault cert certificate dir w).0 ≡ ok true
  unfolding verify_against
  verify_against-true certificate dir w h =
      caught-true (verify_in x vault cert certificate dir w).0 (λ error. clean_up x vault dir)
        (verify_in x vault cert certificate dir w).1
        (λ error. clean_up-false dir (verify_in x vault cert certificate dir w).1) h

  same_fingerprint-true :
      (found : Option Text)
      → same_fingerprint x vault fingerprint found ≡ true
      → (san : Text) × (found ≡ some san) × (x.to_upper_case san ≡ x.to_upper_case fingerprint)
  same_fingerprint-true none h = absurd (false_ne_true h)
  same_fingerprint-true (some san) h =
      (san, refl, (==_iff (x.to_upper_case san) (x.to_upper_case fingerprint)).0 h)

  names_relay-true :
      (lines : List Text)
      → names_relay x vault fingerprint lines ≡ true
      → (has_subject lines ≡ true)
        × (san : Text) × (san_fingerprint lines ≡ some san)
        × (x.to_upper_case san ≡ x.to_upper_case fingerprint)
  unfolding names_relay
  names_relay-true lines h =
      let (san, san_eq, same) = same_fingerprint-true (san_fingerprint lines) (ground arith) in
      (ground arith, san, san_eq, same)

  -- From the answer of the vault on.
  issued :
      (w : World E) (output aki : Text) (issuer : Option VaultReadIssuerResponse)
      → (x.exec_sync (show_command x vault cert) w.env).0 ≡ ok output
      → aki_line (split 10 output) ≡ some aki
      → (issuer
          ≡ caught_issuer
              (vault.get
                (issuer_path (trim aki))
                vault.vault_token
                (x.exec_sync (show_command x vault cert) w.env).1).0)
      → (after_issuer x vault cert fingerprint
          (split 10 output)
          issuer
          (record w { env = asked aki w })).0
        ≡ ok true
      → IsIssued w
  unfolding after_issuer
  issued w output aki none shown aki_eq found h = absurd (false_ne_true (ok-injective h))
  issued w output aki (some issuer) shown aki_eq found h =
      let lines : List Text = split 10 output in
      let made =
        ask (x.mkdtemp_sync (x.tmpdir ++ (x.sep ++ text "ca-cert-")))
          (record w { env = asked aki w }) in
      let (dir, made_ok, h1) =
        continue-eq-ok made.0
          (λ dir. verify_against x vault cert issuer.certificate dir >>= λ is_verified.
            pure (is_verified && names_relay x vault fingerprint lines))
          made.1 h in
      let against = verify_against x vault cert issuer.certificate dir made.1 in
      let (is_verified, against_ok, h2) =
        continue-eq-ok against.0
          (λ is_verified. pure (is_verified && names_relay x vault fingerprint lines)) against.1
          h1 in
      let both : is_verified && names_relay x vault fingerprint lines ≡ true = ok-injective h2 in
      let is_true : is_verified ≡ true = ground arith in
      let named : names_relay x vault fingerprint lines ≡ true = ground arith in
      let (written, verdict, verified) =
        verify_in-true issuer.certificate dir made.1 (
          verify_against-true issuer.certificate dir made.1
            (against_ok ∙ ap (λ b. ok b) is_true)) in
      let (subject, san, san_eq, same) = names_relay-true lines named in
      record {
        output = output;
        shown = shown;
        aki = aki;
        aki_eq = aki_eq;
        issuer = issuer;
        issuer_eq = caught_issuer-some _ (sym found);
        dir = dir;
        made = as_error-ok _ made_ok;
        written = written;
        verdict = verdict;
        verified = verified;
        subject = subject;
        san = san;
        san_eq = san_eq;
        same = same;
      }

  aki-IsIssued :
      (w : World E) (output : Text) (aki : Option Text)
      → (x.exec_sync (show_command x vault cert) w.env).0 ≡ ok output
      → aki_line (split 10 output) ≡ aki
      → (after_aki x vault cert fingerprint
          (split 10 output)
          aki
          (record w { env = (x.exec_sync (show_command x vault cert) w.env).1 })).0
        ≡ ok true
      → IsIssued w
  unfolding after_aki get_issuer_by_ski
  aki-IsIssued w output none shown aki_eq h = absurd (false_ne_true (ok-injective h))
  aki-IsIssued w output (some aki) shown aki_eq h =
      issued w output aki
        (caught_issuer
          (vault.get (issuer_path (trim aki)) vault.vault_token
            (x.exec_sync (show_command x vault cert) w.env).1).0)
        shown aki_eq refl h

  shown-IsIssued :
      (w : World E) (r : Result Text Text)
      → (x.exec_sync (show_command x vault cert) w.env).0 ≡ r
      → (after_show x vault cert fingerprint r
          (record w { env = (x.exec_sync (show_command x vault cert) w.env).1 })).0
        ≡ ok true
      → IsIssued w
  shown-IsIssued w (err message) shown h = absurd (false_ne_true (ok-injective h))
  shown-IsIssued w (ok output) shown h =
      aki-IsIssued w output (aki_line (split 10 output)) shown refl h

  -- If a device certificate is called valid, then openssl could print it; the vault has an issuer for the
  -- line that is taken for its authority key identifier; the issuer's certificate was written to a file of a
  -- new directory, and openssl, called next, verified the certificate against that file; a printed line has the organisation as the subject; and the
  -- line for the alternative name has a fingerprint that is the relay's, up to case.
  pub validate_device_certificate-IsIssued :
      (w : World E)
      → (validate_device_certificate x vault cert fingerprint w).0 ≡ ok true
      → IsIssued w
  unfolding validate_device_certificate
  validate_device_certificate-IsIssued w h =
      shown-IsIssued w (x.exec_sync (show_command x vault cert) w.env).0 refl h
