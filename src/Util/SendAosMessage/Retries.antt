-- ===== src/Util/SendAosMessage/Retries.antt =====
-- How often a message is sent and how long the loop sleeps, whatever the process answers.
use operator_registry_contro.Prelude.{
  ℕ, zero, suc, ◌+◌, ◌≤◌, ◌<◌, ◌≡◌, refl, sym, ap, ◌∙◌, ◌⊎◌, inl, inr, Bool, true, false, Option,
  none, some, List, [], ◌∷◌, ◌++◌, Text, Result, ok, err, Action, Bool-cases, arith, replicate,
  err-injective,
}
use mathlib.Core.List.{append_assoc, append-nil}
use native.Mathlib.Nat.{zero-add, suc-add}
use operator_registry_contro.World.{World, Error, service_error, undefined_error, AoMessage}
use operator_registry_contro.Util.SendAosMessage.{
  Ao, is_transient, last_thrown, backoff, after_attempt, retry_loop, message_attempt,
  send_aos_message,
}

-- The sleeps after `n` failures, the first of which ended attempt number `attempts`.
abbrev pub backoffs : ℕ → ℕ → List ℕ
backoffs attempts zero = []
backoffs attempts (suc n) = backoff attempts ∷ backoffs (suc attempts) n

-- What the loop throws if no attempt is left.
abbrev pub thrown : Option Text → Error
thrown none = undefined_error
thrown (some message) = service_error message

module _ {E A : Type 0} (attempt : Action (World E) Text A) where
  -- The error is that of an attempt after which nothing else was asked.
  pub record IsLast (is_again : Bool) (x : Error) (w' : World E) : Type 0 where
    pub before : World E
    pub message : Text
    pub failed : (attempt before).0 ≡ err message
    pub thrown_eq : x ≡ service_error message
    pub transient_eq : is_transient message ≡ is_again
    pub env_eq : w'.env ≡ (attempt before).1.env

  -- The error `x` that the loop throws after `n` retried failures: it is that of the last attempt, which is
  -- transient if all attempts were used, and not transient if not.
  abbrev pub IsFinal : Option Text → ℕ → ℕ → World E → Error → World E → Type 0
  IsFinal last zero n w x w' = (x ≡ thrown last) × (w'.env ≡ w.env)
  IsFinal last (suc left) n w x w' =
      ((n ≡ suc left) × IsLast true x w') ⊎ ((n < suc left) × IsLast false x w')

-- What one attempt does: `copies` of the message are accepted, one if it succeeds.
pub record IsAttempt {E A : Type 0} (m : AoMessage) (w : World E) (r : Result Text A) (w' : World E)
    : Type 0 where
  pub copies : ℕ
  pub copies_le : copies ≤ 1
  pub slept_eq : w'.slept ≡ w.slept
  pub sent_eq : w'.sent ≡ w.sent ++ replicate copies m
  pub delivered : (a : A) → r ≡ ok a → copies ≡ 1

-- What a run with `left` attempts does: `failures` are retried, and `copies` of the message accepted.
pub record IsRetried {E A : Type 0} (attempt : Action (World E) Text A) (m : AoMessage)
    (last : Option Text) (left attempts : ℕ) (w : World E) (r : Result Error A) (w' : World E)
    : Type 0 where
  pub failures : ℕ
  pub copies : ℕ
  pub failures_le : failures ≤ left
  pub copies_le : copies ≤ left
  pub slept_eq : w'.slept ≡ w.slept ++ backoffs attempts failures
  pub sent_eq : w'.sent ≡ w.sent ++ replicate copies m
  pub error_final : (x : Error) → r ≡ err x → IsFinal attempt last left failures w x w'
  pub delivered : (a : A) → r ≡ ok a → 0 < copies

replicate-add {ℓ} :
    {A : Type ℓ} (j k : ℕ) (a : A) → replicate j a ++ replicate k a ≡ replicate (j + k) a
replicate-add zero k a = rw zero-add
replicate-add (suc j) k a = rw suc-add (ap (◌∷◌ a) (replicate-add j k a))

replicate-append {ℓ} :
    {A : Type ℓ} (xs : List A) (j k : ℕ) (a : A)
    → (xs ++ replicate j a) ++ replicate k a ≡ xs ++ replicate (j + k) a
replicate-append xs j k a = append_assoc xs _ _ ∙ ap (◌++◌ xs) (replicate-add j k a)

module _ {E A : Type 0} (m : AoMessage) (attempt : Action (World E) Text A)
    (step : (w : World E) → IsAttempt m w (attempt w).0 (attempt w).1) where
  abbrev rested : ℕ → World E → World E
  rested attempts v = record v { slept = v.slept ++ backoff attempts ∷ [] }

  -- One more transient failure before the rest of the loop.
  IsFinal-suc :
      (last : Option Text) (attempts : ℕ) {w : World E} {e : Text} (left n : ℕ) (x : Error)
      (w' : World E)
      → (attempt w).0 ≡ err e
      → is_transient e ≡ true
      → n ≤ left
      → IsFinal attempt (some e) left n (rested attempts (attempt w).1) x w'
      → IsFinal attempt last (suc left) (suc n) w x w'
  IsFinal-suc last attempts {w} {e} zero n x w' failed again n_le (eq, env) = inl (
    omega arith,
    record {
      before = w;
      message = e;
      failed = failed;
      thrown_eq = eq;
      transient_eq = again;
      env_eq = env;
    },
  )
  IsFinal-suc last attempts (suc left) n x w' failed again n_le (inl (all, final)) =
      inl (omega arith, final)
  IsFinal-suc last attempts (suc left) n x w' failed again n_le (inr (fewer, final)) =
      inr (omega arith, final)

  -- A transient failure, its sleep, and then the rest of the loop.
  retried :
      {last : Option Text} {left attempts : ℕ} {w : World E} {e : Text} {r : Result Error A}
      {w' : World E}
      → (attempt w).0 ≡ err e
      → is_transient e ≡ true
      → IsAttempt {A = A} m w (err e) (attempt w).1
      → IsRetried attempt m (some e) left (suc attempts) (rested attempts (attempt w).1) r w'
      → IsRetried attempt m last (suc left) attempts w r w'
  retried {last} {left} {attempts} {w} {w'} failed again s i = record {
    failures = suc i.failures;
    copies = s.copies + i.copies;
    failures_le = omega arith;
    copies_le = omega arith;
    slept_eq =
        i.slept_eq
        ∙ append_assoc (attempt w).1.slept _ _
        ∙ ap (λ (t : List ℕ). t ++ backoffs attempts (suc i.failures)) s.slept_eq;
    sent_eq =
        i.sent_eq
        ∙ ap (λ (t : List AoMessage). t ++ replicate i.copies m) s.sent_eq
        ∙ replicate-append w.sent s.copies i.copies m;
    error_final = λ x h.
        IsFinal-suc last attempts left i.failures x w' failed again i.failures_le
          (i.error_final x h);
    delivered = λ a h. omega (arith, i.delivered a h);
  }

  retry_loop-IsRetried :
      (left attempts : ℕ) (last : Option Text) (w : World E)
      → IsRetried attempt m last left attempts w
          (retry_loop attempt left attempts last w).0
          (retry_loop attempt left attempts last w).1
  unfolding retry_loop last_thrown
  retry_loop-IsRetried zero attempts last w = record {
    failures = 0;
    copies = 0;
    failures_le = omega arith;
    copies_le = omega arith;
    slept_eq = sym (append-nil _);
    sent_eq = sym (append-nil _);
    error_final = λ x h. (sym (err-injective h) ∙ thrown_lem last, refl);
    delivered = λ a h. cc;
  }
    where
      thrown_lem : (last : Option Text) → last_thrown last ≡ thrown last
      thrown_lem none = refl
      thrown_lem (some message) = refl
  retry_loop-IsRetried (suc left) attempts last w =
      go (attempt w).0 refl (step w) (retry_loop-IsRetried left (suc attempts))
    where
      go :
          (r : Result Text A)
          → (attempt w).0 ≡ r
          → IsAttempt m w r (attempt w).1
          → ((last' : Option Text) (u : World E)
              → IsRetried attempt m last' left
                  (suc attempts)
                  u
                  (retry_loop attempt left (suc attempts) last' u).0
                  (retry_loop attempt left (suc attempts) last' u).1)
          → IsRetried attempt m last
              (suc left)
              attempts
              w
              (after_attempt attempt attempts
                (retry_loop attempt left (suc attempts))
                r
                (attempt w).1).0
              (after_attempt attempt attempts
                (retry_loop attempt left (suc attempts))
                r
                (attempt w).1).1
      go (ok a) eq s ih = record {
        failures = 0;
        copies = s.copies;
        failures_le = omega arith;
        copies_le = omega arith;
        slept_eq = s.slept_eq ∙ sym (append-nil _);
        sent_eq = s.sent_eq;
        error_final = λ x h. cc;
        delivered = λ b h. omega (arith, s.delivered a refl);
      }
      go (err e) eq s ih = elim (Bool-cases (is_transient e)) [
        | inl again ↦ rw again (retried eq again s (ih (some e) (rested attempts (attempt w).1)))
        | inr final ↦ rw final (record {
          failures = 0;
          copies = s.copies;
          failures_le = omega arith;
          copies_le = omega arith;
          slept_eq = s.slept_eq ∙ sym (append-nil _);
          sent_eq = s.sent_eq;
          error_final = λ x h. inr (
            omega arith,
            record {
              before = w;
              message = e;
              failed = eq;
              thrown_eq = sym (err-injective h);
              transient_eq = final;
              env_eq = refl;
            },
          );
          delivered = λ b h. cc;
        })
      ]

abbrev copies_of : Result Text Text → ℕ
copies_of (ok id) = 1
copies_of (err message) = 0

module _ {E : Type 0} (ao : Ao E) (m : AoMessage) where
  message_attempt-IsAttempt :
      (w : World E) → IsAttempt m w (message_attempt ao m w).0 (message_attempt ao m w).1
  unfolding message_attempt
  message_attempt-IsAttempt w = record {
    copies = copies_of (ao.message m w.env).0;
    copies_le = ground arith;
    slept_eq = ground arith;
    sent_eq = ground (arith, append-nil w.sent);
    delivered = λ a h. ground arith;
  }

  -- Whatever the process answers: a message is accepted at most once for each try, at least once if the
  -- call returns, and the sleeps are 2, 4, 8, ... seconds, one after each failure that is retried. An error
  -- that it throws is that of the last attempt: a transient one if there were as many failures as retries,
  -- and one that is not transient if there were fewer. With no retries `undefined` is thrown.
  pub send_aos_message-IsRetried :
      (retries : ℕ) (w : World E)
      → IsRetried
          (message_attempt ao m)
          m
          none
          retries
          0
          w
          (send_aos_message ao m retries w).0
          (send_aos_message ao m retries w).1
  unfolding send_aos_message
  send_aos_message-IsRetried retries w =
      retry_loop-IsRetried m (message_attempt ao m) message_attempt-IsAttempt retries 0 none w
