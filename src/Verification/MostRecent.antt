-- ===== src/Verification/MostRecent.antt =====
-- `getMostRecent` of src/verification/verification.service.ts. `findOne` with a `sort` is a parameter.
use operator_registry_contro.Prelude.{Option, none, List, Action, pure, try_catch}
use operator_registry_contro.Verification.Dto.{VerificationData}
use operator_registry_contro.World.{World, Error, Call, ask}

-- An error is logged, and nothing is returned in its place.
unfoldable pub get_most_recent :
    {E : Type 0}
    → (List VerificationData → Call E (Option VerificationData))
    → Action (World E) Error (Option VerificationData)
get_most_recent find_latest w = try_catch (ask (find_latest w.verifications)) (λ error. pure none) w
