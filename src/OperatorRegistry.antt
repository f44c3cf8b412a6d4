-- ===== src/OperatorRegistry.antt =====
-- src/operator-registry/operator-registry.service.ts and interfaces/operator-registry.ts: the client of
-- the AO process that registers operators. `JSON.parse` of its state and `JSON.stringify` of the
-- certificates are parameters: the language's own, with no code here.
pub mod State
pub mod Submission
pub mod Start
use operator_registry_contro.Prelude.{
  ℕ, Bool, true, false, Option, none, some, List, [], ◌∷◌, map, Text, text, ◌==◌, if◌then◌else◌,
  Result, ok, err, Action, ◌>>=◌, pure, throw, try_catch,
}
use operator_registry_contro.Validation.Dto.{RelayDataDto}
use operator_registry_contro.World.{
  World, Error, type_error, signer_not_defined, process_error, no_messages, Tag, AoMessage,
}
use operator_registry_contro.Util.SendAosMessage.{Ao, AoResult, send_aos_message, send_aos_dry_run}

-- A value in a table of the registry's state.
pub data Scalar : Type 0 where
  null : Scalar
  boolean : Bool → Scalar
  string : Text → Scalar

-- A property of the registry's state: a Lua table is an object, or an array if it is empty.
pub data Property : Type 0 where
  object : List (Text × Scalar) → Property
  array : List Scalar → Property

abbrev pub OperatorRegistryState : Type 0
OperatorRegistryState = List (Text × Property)

-- `{ relay, isHardwareProofValid? }`
pub record RelayWithHardwareProof : Type 0 where
  pub relay : RelayDataDto
  pub is_hardware_proof_valid : Option Bool

-- `{ a, f, hw? }`
pub record OperatorCertificate : Type 0 where
  pub a : Text
  pub f : Text
  pub hw : Option Bool

pub record SubmitResult : Type 0 where
  pub success : Bool
  pub message_id : Option Text

-- The fields of the service, and the two functions of the global `JSON`.
pub record OperatorRegistry (E : Type 0) : Type 0 where
  pub ao : Ao E
  pub operator_registry_process_id : Text
  pub has_signer : Bool
  pub parse : Text → Result Error OperatorRegistryState
  pub stringify : List OperatorCertificate → Text

-- `for (const prop in state)`: an empty array becomes an empty object.
pub normalize_property : Property → Property
normalize_property (array []) = object []
normalize_property p = p

unfoldable pub normalize : OperatorRegistryState → OperatorRegistryState
unfolding normalize_property
normalize [] = []
normalize ((name, p) ∷ state) = (name, normalize_property p) ∷ normalize state

pub tag : Text → Text → Tag
tag name value = record { name = name; value = value }

-- `isHardwareProofValid ? { a, f, hw: true } : { a, f }`
unfoldable pub certificate : RelayWithHardwareProof → OperatorCertificate
certificate r = record {
  a = r.relay.any1_address;
  f = r.relay.fingerprint;
  hw = elim r.is_hardware_proof_valid [ some true ↦ some true | _ ↦ none ];
}

-- `!result.Messages || result.Messages.length < 1`, and else the first one's `Data`
pub first_message : Option (List Text) → Option Text
first_message none = none
first_message (some []) = none
first_message (some (payload ∷ more)) = some payload

module _ {E : Type 0} (x : OperatorRegistry E) where
  pub view_state : AoMessage
  unfolding tag
  view_state = record {
    process_id = x.operator_registry_process_id;
    tags = tag (text "Action") (text "View-State") ∷ [];
    payload = none;
  }

  pub parsed : Result Error OperatorRegistryState → Action (World E) Error OperatorRegistryState
  unfolding normalize
  parsed (ok state) = pure (normalize state)
  parsed (err e) = throw e

  pub read_first : Option Text → Action (World E) Error OperatorRegistryState
  unfolding parsed
  read_first none = throw no_messages
  read_first (some payload) = parsed (x.parse payload)

  -- what follows the dry run, by `result.Error`
  pub read_state : Option Text → Option (List Text) → Action (World E) Error OperatorRegistryState
  unfolding read_first first_message
  read_state (some message) messages = throw (process_error message)
  read_state none messages = read_first (first_message messages)

  unfoldable pub get_operator_registry_state : Action (World E) Error OperatorRegistryState
  unfolding read_state view_state
  get_operator_registry_state = do
    result ← send_aos_dry_run x.ao view_state 3
    read_state result.error result.messages

  pub add_credit : Text → Text → Text → AoMessage
  unfolding tag
  add_credit address transaction_hash fingerprint = record {
    process_id = x.operator_registry_process_id;
    tags =
        tag (text "Action") (text "Add-Registration-Credit")
        ∷ tag (text "Address") address
        ∷ tag (text "Fingerprint") fingerprint
        ∷ tag (text "EVM-TX") transaction_hash
        ∷ [];
    payload = none;
  }

  abbrev pub credited : Text × AoResult → Bool
  credited (message_id, result) = elim result.error [ none ↦ true | some message ↦ false ]

  unfoldable pub add_registration_credit : Text → Text → Text → Action (World E) Error Bool
  unfolding add_credit
  add_registration_credit address transaction_hash fingerprint =
      if x.has_signer
      then try_catch
          (do
            sent ← send_aos_message x.ao (add_credit address transaction_hash fingerprint) 3
            pure (credited sent))
          (λ error. pure false)
      else throw signer_not_defined

  pub certificates : List RelayWithHardwareProof → AoMessage
  unfolding tag certificate
  certificates relays = record {
    process_id = x.operator_registry_process_id;
    tags = tag (text "Action") (text "Admin-Submit-Operator-Certificates") ∷ [];
    payload = some (x.stringify (map certificate relays));
  }

  abbrev pub submitted : Text × AoResult → SubmitResult
  submitted (message_id, result) = elim result.error [
    | none ↦ record { success = true; message_id = some message_id }
    | some message ↦ record { success = false; message_id = none }
  ]

  unfoldable pub admin_submit_operator_certificates :
      List RelayWithHardwareProof → Action (World E) Error SubmitResult
  unfolding certificates
  admin_submit_operator_certificates relays =
      if x.has_signer
      then try_catch
          (do sent ← send_aos_message x.ao (certificates relays) 3; pure (submitted sent))
          (λ error. pure (record { success = false; message_id = none }))
      else throw signer_not_defined
