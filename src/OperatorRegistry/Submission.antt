-- ===== src/OperatorRegistry/Submission.antt =====
-- What the client sends when it submits certificates.
use operator_registry_contro.Prelude.{
  ℕ, ◌≤◌, ◌<◌, ◌≡◌, refl, true, false, none, List, ◌++◌, Text, Result, ok, err, replicate, arith,
}
use operator_registry_contro.World.{World, Error}
use operator_registry_contro.Util.SendAosMessage.{AoResult, message_attempt, send_aos_message}
use operator_registry_contro.Util.SendAosMessage.Retries.{IsRetried, send_aos_message-IsRetried}
use operator_registry_contro.OperatorRegistry.{
  OperatorRegistry, RelayWithHardwareProof, SubmitResult, certificates, submitted,
  admin_submit_operator_certificates,
}

-- The submission returned an answer, and left at most three copies of its message with the process,
-- at least one if it reports success.
pub record IsSubmitted {E : Type 0} (x : OperatorRegistry E) (relays : List RelayWithHardwareProof)
    (w : World E) (r : Result Error SubmitResult) (w' : World E) : Type 0 where
  pub answer : SubmitResult
  pub returned : r ≡ ok answer
  pub copies : ℕ
  pub copies_le : copies ≤ 3
  pub sent_eq : w'.sent ≡ w.sent ++ replicate copies (certificates x relays)
  pub delivered : answer.success ≡ true → 0 < copies

abbrev answer_of : {E : Type 0} → OperatorRegistry E → Result Error (Text × AoResult) → SubmitResult
answer_of x (ok s) = submitted x s
answer_of x (err e) = record { success = false; message_id = none }

module _ {E : Type 0} (x : OperatorRegistry E) where
  -- With a signer the submission returns an answer, whatever the process does, and leaves at most three
  -- copies of the one message with the certificates of its relays there, at least one if the answer is
  -- success.
  pub admin_submit_operator_certificates-IsSubmitted :
      (relays : List RelayWithHardwareProof) (w : World E)
      → x.has_signer ≡ true
      → IsSubmitted x relays w
          (admin_submit_operator_certificates x relays w).0
          (admin_submit_operator_certificates x relays w).1
  unfolding admin_submit_operator_certificates
  admin_submit_operator_certificates-IsSubmitted relays w signer =
      let i = send_aos_message-IsRetried x.ao (certificates x relays) 3 w in
      record {
        answer = answer_of x (send_aos_message x.ao (certificates x relays) 3 w).0;
        returned = ground arith;
        copies = i.copies;
        copies_le = i.copies_le;
        sent_eq = ground (arith, i.sent_eq);
        delivered = λ h. go (send_aos_message x.ao (certificates x relays) 3 w).0 i h;
      }
    where
      go :
          (r : Result Error (Text × AoResult))
          (i : IsRetried
            (message_attempt x.ao (certificates x relays))
            (certificates x relays)
            none
            3
            0
            w
            r
            (send_aos_message x.ao (certificates x relays) 3 w).1)
          → (answer_of x r).success ≡ true
          → 0 < i.copies
      go (ok s) i h = i.delivered s refl
      go (err e) i h = cc
