-- ===== src/Util/SendAosMessage/Quiet.antt =====
-- A dry run sends nothing and touches no stored relay, however often it is retried.
use operator_registry_contro.Prelude.{
  ℕ, zero, suc, refl, none, some, Option, Text, Result, ok, err, Action, Bool-cases, inl, inr,
}
use operator_registry_contro.World.{World, Error, AoMessage, IsQuiet, IsQuiet-refl, IsQuiet-trans}
use operator_registry_contro.Util.SendAosMessage.{
  Ao, is_transient, after_attempt, retry_loop, call, send_aos_dry_run,
}

module _ {E A : Type 0} (attempt : Action (World E) Text A) where
  after_attempt-IsQuiet :
      (attempts : ℕ) (again : Option Text → Action (World E) Error A) (r : Result Text A)
      (w v : World E)
      → IsQuiet w v
      → ((last : Option Text) (u : World E) → IsQuiet u (again last u).1)
      → IsQuiet w (after_attempt attempt attempts again r v).1
  unfolding after_attempt
  after_attempt-IsQuiet attempts again (ok a) w v q h = q
  after_attempt-IsQuiet attempts again (err m) w v q h = elim (Bool-cases (is_transient m)) [
    | inl transient ↦ rw transient (
        IsQuiet-trans
          (record {
            sent_eq = q.sent_eq;
            relay_infos_eq = q.relay_infos_eq;
            uploads_eq = q.uploads_eq;
            verifications_eq = q.verifications_eq;
            known_devices_eq = q.known_devices_eq;
          })
          (h (some m) _))
    | inr final ↦ rw final q
  ]

  retry_loop-IsQuiet :
      ((w : World E) → IsQuiet w (attempt w).1)
      → (left attempts : ℕ) (last : Option Text) (w : World E)
      → IsQuiet w (retry_loop attempt left attempts last w).1
  unfolding retry_loop
  retry_loop-IsQuiet quiet zero attempts last w = IsQuiet-refl w
  retry_loop-IsQuiet quiet (suc left) attempts last w =
      after_attempt-IsQuiet attempts (retry_loop attempt left (suc attempts)) (attempt w).0 w
        (attempt w).1 (quiet w) (retry_loop-IsQuiet quiet left (suc attempts))

pub send_aos_dry_run-IsQuiet :
    {E : Type 0} (ao : Ao E) (m : AoMessage) (retries : ℕ) (w : World E)
    → IsQuiet w (send_aos_dry_run ao m retries w).1
unfolding send_aos_dry_run
send_aos_dry_run-IsQuiet ao m retries w =
    retry_loop-IsQuiet (call ao (ao.dryrun m))
      (λ v. record {
        sent_eq = refl;
        relay_infos_eq = refl;
        uploads_eq = refl;
        verifications_eq = refl;
        known_devices_eq = refl;
      })
      retries 0 none w
