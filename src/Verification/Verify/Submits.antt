-- ===== src/Verification/Verify/Submits.antt =====
-- What the submission of the chunks sends.
use operator_registry_contro.Prelude.{
  ℕ, ◌≤◌, ◌≡◌, refl, subst, Bool, true, false, List, [], ◌∷◌, ◌++◌, Result, ok, err, Action,
  continue, caught, err-ne-ok, replicate, Bool-cases, inl, inr,
}
use operator_registry_contro.Verification.Dto.{VerificationResultDto}
use operator_registry_contro.Verification.Claimable.{ClaimableRelaysResult}
use operator_registry_contro.OperatorRegistry.{
  RelayWithHardwareProof, SubmitResult, OperatorRegistry, certificates,
  admin_submit_operator_certificates,
}
use operator_registry_contro.OperatorRegistry.Submission.{
  IsSubmitted, admin_submit_operator_certificates-IsSubmitted,
}
use operator_registry_contro.World.{World, Error, AoMessage}
use operator_registry_contro.Verification.Verify.{
  VerificationService, live, after_submit, submit_chunks, submit,
}

-- The messages of the chunks, in order: at most three copies of each.
pub data Posted {E : Type 0} (x : OperatorRegistry E)
    : List (List RelayWithHardwareProof) → List AoMessage → List AoMessage → Type 0 where
  nothing : {sent : List AoMessage} → Posted x [] sent sent
  copies :
      {chunk : List RelayWithHardwareProof} {chunks : List (List RelayWithHardwareProof)}
      {sent sent' : List AoMessage} (k : ℕ)
      → k ≤ 3
      → Posted x chunks (sent ++ replicate k (certificates x chunk)) sent'
      → Posted x (chunk ∷ chunks) sent sent'

module _ {E : Type 0} (x : VerificationService E) (signer : x.registry.has_signer ≡ true) where
  pub record HasPosted (chunks : List (List RelayWithHardwareProof))
      (results : List VerificationResultDto) (w : World E)
      (r : Result Error (List VerificationResultDto)) (w' : World E) : Type 0 where
    pub returned : r ≡ ok results
    pub posted : Posted x.registry chunks w.sent w'.sent

  module _ (chunk : List RelayWithHardwareProof) (chunks : List (List RelayWithHardwareProof))
      (results : List VerificationResultDto) (w : World E) where
    -- The chunk is submitted, and the rest of the loop runs.
    submitted :
        (r : Result Error SubmitResult) (v : World E)
        → IsSubmitted x.registry chunk (record w { slept = w.slept ++ 2345 ∷ [] }) r v
        → ((u : World E)
            → HasPosted chunks results u
                (submit_chunks x chunks results u).0
                (submit_chunks x chunks results u).1)
        → HasPosted
            (chunk ∷ chunks)
            results
            w
            (continue r (λ s. submit_chunks x chunks (after_submit x chunk s results)) v).0
            (continue r (λ s. submit_chunks x chunks (after_submit x chunk s results)) v).1
    unfolding after_submit
    submitted (ok s) v i ih = record {
      returned = (ih v).returned;
      posted = copies i.copies i.copies_le (
          subst (λ t. Posted x.registry chunks t (submit_chunks x chunks results v).1.sent)
            i.sent_eq (ih v).posted);
    }
    submitted (err e) v i ih = absurd (err-ne-ok i.returned)

  submit_chunks-HasPosted :
      (chunks : List (List RelayWithHardwareProof)) (results : List VerificationResultDto)
      (w : World E)
      → HasPosted chunks results w
          (submit_chunks x chunks results w).0
          (submit_chunks x chunks results w).1
  unfolding submit_chunks
  submit_chunks-HasPosted [] results w = record { returned = refl; posted = nothing }
  submit_chunks-HasPosted (chunk ∷ chunks) results w =
      submitted chunk chunks results w
        (admin_submit_operator_certificates x.registry chunk
          (record w { slept = w.slept ++ 2345 ∷ [] })).0
        (admin_submit_operator_certificates x.registry chunk
          (record w { slept = w.slept ++ 2345 ∷ [] })).1
        (admin_submit_operator_certificates-IsSubmitted x.registry chunk _ signer)
        (submit_chunks-HasPosted chunks results)

  submit_dry :
      (l : ClaimableRelaysResult) (w : World E)
      → live x.is_live ≡ false
      → HasPosted [] l.results w (submit x l w).0 (submit x l w).1
  unfolding submit
  submit_dry l w off = rw off (record { returned = refl; posted = nothing })

  -- Which chunks the `try` block submits.
  abbrev pub chunks_of : Bool → List RelayWithHardwareProof → List (List RelayWithHardwareProof)
  chunks_of false relays = []
  chunks_of true [] = []
  chunks_of true (relay ∷ relays) = x.chunk (relay ∷ relays) 100

  returned-try_catch :
      {chunks : List (List RelayWithHardwareProof)} {results : List VerificationResultDto}
      (w : World E) (r : Result Error (List VerificationResultDto)) (v : World E)
      (h : Error → Action (World E) Error (List VerificationResultDto))
      → HasPosted chunks results w r v
      → HasPosted chunks results w (caught r h v).0 (caught r h v).1
  returned-try_catch w (ok a) v h p = p
  returned-try_catch w (err e) v h p = absurd (err-ne-ok p.returned)

  submit_live :
      (relays : List RelayWithHardwareProof) (results : List VerificationResultDto) (w : World E)
      → live x.is_live ≡ true
      → HasPosted
          (chunks_of true relays)
          results
          w
          (submit x (record { relays_to_add_as_claimable = relays; results = results }) w).0
          (submit x (record { relays_to_add_as_claimable = relays; results = results }) w).1
  unfolding submit
  submit_live [] results w on = rw on (record { returned = refl; posted = nothing })
  submit_live (relay ∷ relays) results w on = rw on (
      returned-try_catch w _ _ _ (submit_chunks-HasPosted (x.chunk (relay ∷ relays) 100) results w))

  pub submit-HasPosted :
      (l : ClaimableRelaysResult) (w : World E)
      → HasPosted
          (chunks_of (live x.is_live) l.relays_to_add_as_claimable)
          l.results
          w
          (submit x l w).0
          (submit x l w).1
  submit-HasPosted l w = elim (Bool-cases (live x.is_live)) [
    | inl on ↦ rw on (submit_live l.relays_to_add_as_claimable l.results w on)
    | inr off ↦ rw off (submit_dry l w off)
  ]
