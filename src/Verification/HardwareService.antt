-- ===== src/Verification/HardwareService.antt =====
-- What the verification of relays takes from the service that verifies hardware
-- (src/verification/hardware-verification.service.ts): two calls that may write to the collections of
-- hardware, and leave the stored relays and the messages sent as they are.
use operator_registry_contro.Prelude.{Bool, Option, Text, Action}
use operator_registry_contro.Validation.Dto.{RelayDataDto}
use operator_registry_contro.Verification.Dto.{VerifiedHardware}
use operator_registry_contro.World.{World, Error, IsQuiet}

pub record HardwareService (E : Type 0) : Type 0 where
  pub get_verified_hardware_by_atec_serial :
      Option Text → Action (World E) Error (Option VerifiedHardware)
  pub is_hardware_proof_valid : RelayDataDto → Action (World E) Error Bool
  pub get_verified_hardware_by_atec_serial-IsQuiet :
      (serial : Option Text) (w : World E)
      → IsQuiet w (get_verified_hardware_by_atec_serial serial w).1
  pub is_hardware_proof_valid-IsQuiet :
      (relay : RelayDataDto) (w : World E) → IsQuiet w (is_hardware_proof_valid relay w).1
