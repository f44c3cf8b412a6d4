-- ===== src/OperatorRegistry/State.antt =====
-- The state of the registry as the client hands it on.
use operator_registry_contro.Prelude.{
  none, some, Option, List, [], ◌∷◌, Text, Result, ok, err, continue,
}
use operator_registry_contro.World.{World, Error, IsQuiet, IsQuiet-refl, IsQuiet-trans}
use operator_registry_contro.Util.SendAosMessage.Quiet.{send_aos_dry_run-IsQuiet}
use operator_registry_contro.Util.SendAosMessage.{AoResult, send_aos_dry_run}
use operator_registry_contro.OperatorRegistry.{
  Scalar, object, array, OperatorRegistryState, OperatorRegistry, parsed, read_first, read_state,
  get_operator_registry_state, first_message, view_state,
}

-- The second state has the names of the first in their order, an empty object where the first has an empty
-- array, and any other array and every object as they are.
pub data Normalized : OperatorRegistryState → OperatorRegistryState → Type 0 where
  nothing : Normalized [] []
  emptied :
      {name : Text} {raw state : OperatorRegistryState}
      → Normalized raw state
      → Normalized ((name, array []) ∷ raw) ((name, object []) ∷ state)
  kept_array :
      {name : Text} {item : Scalar} {items : List Scalar} {raw state : OperatorRegistryState}
      → Normalized raw state
      → Normalized ((name, array (item ∷ items)) ∷ raw) ((name, array (item ∷ items)) ∷ state)
  kept_object :
      {name : Text} {table : List (Text × Scalar)} {raw state : OperatorRegistryState}
      → Normalized raw state
      → Normalized ((name, object table) ∷ raw) ((name, object table) ∷ state)

module _ {E : Type 0} (x : OperatorRegistry E) where
  parsed-IsQuiet :
      (r : Result Error OperatorRegistryState) (w : World E) → IsQuiet w (parsed x r w).1
  unfolding parsed
  parsed-IsQuiet (ok state) w = IsQuiet-refl w
  parsed-IsQuiet (err e) w = IsQuiet-refl w

  read_first-IsQuiet : (first : Option Text) (w : World E) → IsQuiet w (read_first x first w).1
  unfolding read_first
  read_first-IsQuiet none w = IsQuiet-refl w
  read_first-IsQuiet (some payload) w = parsed-IsQuiet (x.parse payload) w

  read_state-IsQuiet :
      (error : Option Text) (messages : Option (List Text)) (w : World E)
      → IsQuiet w (read_state x error messages w).1
  unfolding read_state
  read_state-IsQuiet none messages w = read_first-IsQuiet (first_message messages) w
  read_state-IsQuiet (some message) messages w = IsQuiet-refl w

  read-IsQuiet :
      (r : Result Error AoResult) (w v : World E)
      → IsQuiet w v
      → IsQuiet w (continue r (λ result. read_state x result.error result.messages) v).1
  read-IsQuiet (ok r) w v q = IsQuiet-trans q (read_state-IsQuiet r.error r.messages v)
  read-IsQuiet (err e) w v q = q

  pub get_operator_registry_state-IsQuiet :
      (w : World E) → IsQuiet w (get_operator_registry_state x w).1
  unfolding get_operator_registry_state
  get_operator_registry_state-IsQuiet w =
      read-IsQuiet (send_aos_dry_run x.ao (view_state x) 3 w).0 w
        (send_aos_dry_run x.ao (view_state x) 3 w).1
        (send_aos_dry_run-IsQuiet x.ao (view_state x) 3 w)
