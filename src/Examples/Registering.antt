-- ===== src/Examples/Registering.antt =====
-- The theorems on the registry and on the verification at one stored relay.
use operator_registry_contro.Prelude.{◌≡◌, refl, true, none, some, [], ◌∷◌, text, count, Ensures}
use operator_registry_contro.Examples.Services.{
  ao, registry, hardware, verification_service, store, relay, enriched, world,
}
use operator_registry_contro.Util.SendAosMessage.{message_attempt, send_aos_message}
use operator_registry_contro.Util.SendAosMessage.Retries.{IsRetried, send_aos_message-IsRetried}
use operator_registry_contro.OperatorRegistry.{
  RelayWithHardwareProof, admin_submit_operator_certificates,
}
use operator_registry_contro.OperatorRegistry.Submission.{
  IsSubmitted, admin_submit_operator_certificates-IsSubmitted,
}
use operator_registry_contro.Verification.Claimable.{get_relays_to_add_as_claimable}
use operator_registry_contro.Verification.Claimable.Verdicts.{is_other}
use operator_registry_contro.Verification.Claimable.Whole.{
  IsClassified, get_relays_to_add_as_claimable-IsClassified,
}
use operator_registry_contro.Verification.Verify.{verify_relays}
use operator_registry_contro.Verification.Verify.Results.{IsVerified, verify_relays-IsVerified}
use operator_registry_contro.Verification.Verify.Outcomes.{
  IsSafelyPosted, verify_relays-IsSafelyPosted, verify_relays-lost,
}
use operator_registry_contro.Verification.Dto.{VerificationResultDto}
use operator_registry_contro.Verification.HexMap.{hex_map}
use operator_registry_contro.Verification.HexMap.Cells.{IsCounted, hex_map-IsCounted}
use operator_registry_contro.World.{AoMessage, IsQuiet}

abbrev message : AoMessage
message = record { process_id = text "process"; tags = []; payload = none }

abbrev proved_relay : RelayWithHardwareProof
proved_relay = record { relay = relay; is_hardware_proof_valid = some true }

send_aos_message-IsRetried_example :
    IsRetried
      (message_attempt ao message)
      message
      none
      3
      0
      world
      (send_aos_message ao message 3 world).0
      (send_aos_message ao message 3 world).1
send_aos_message-IsRetried_example = send_aos_message-IsRetried ao message 3 world

admin_submit_operator_certificates-IsSubmitted_example :
    IsSubmitted registry
      (proved_relay ∷ [])
      world
      (admin_submit_operator_certificates registry (proved_relay ∷ []) world).0
      (admin_submit_operator_certificates registry (proved_relay ∷ []) world).1
admin_submit_operator_certificates-IsSubmitted_example =
    admin_submit_operator_certificates-IsSubmitted registry (proved_relay ∷ []) world refl

get_relays_to_add_as_claimable-IsClassified_example :
    Ensures
      (IsClassified hardware [] (text "A" ∷ []) none store world (text "A" ∷ text "B" ∷ []))
      (IsQuiet world)
      (get_relays_to_add_as_claimable hardware []
        (text "A" ∷ [])
        none
        store
        (text "A" ∷ text "B" ∷ [])
        world).0
      (get_relays_to_add_as_claimable hardware []
        (text "A" ∷ [])
        none
        store
        (text "A" ∷ text "B" ∷ [])
        world).1
get_relays_to_add_as_claimable-IsClassified_example =
    get_relays_to_add_as_claimable-IsClassified hardware [] (text "A" ∷ []) none store world
      (text "A" ∷ text "B" ∷ [])

verify_relays-IsVerified_example :
    Ensures
      (IsVerified verification_service refl (text "A" ∷ []) world)
      (IsQuiet world)
      (verify_relays verification_service (text "A" ∷ []) world).0
      (verify_relays verification_service (text "A" ∷ []) world).1
verify_relays-IsVerified_example =
    verify_relays-IsVerified verification_service refl (text "A" ∷ []) world

verify_relays-IsSafelyPosted_example :
    Ensures
      (λ results w. IsSafelyPosted verification_service refl (text "A" ∷ []) world w)
      (λ w. w.sent ≡ [])
      (verify_relays verification_service (text "A" ∷ []) world).0
      (verify_relays verification_service (text "A" ∷ []) world).1
verify_relays-IsSafelyPosted_example =
    verify_relays-IsSafelyPosted verification_service refl (text "A" ∷ []) world

verify_relays-lost_example :
    Ensures
      (λ results w. count (λ (r : VerificationResultDto). is_other r.result) results ≡ 0)
      (λ w. Unit)
      (verify_relays verification_service (text "A" ∷ []) world).0
      (verify_relays verification_service (text "A" ∷ []) world).1
verify_relays-lost_example = verify_relays-lost verification_service refl (text "A" ∷ []) world

hex_map-IsCounted_example :
    IsCounted (text "cell") (enriched ∷ enriched ∷ []) (hex_map (enriched ∷ enriched ∷ []))
hex_map-IsCounted_example = hex_map-IsCounted (text "cell") (enriched ∷ enriched ∷ [])
