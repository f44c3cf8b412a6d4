-- ===== src/World.antt =====
-- The state that the services share: what the database holds, what was sent to the outside and what
-- the singletons keep between calls. `env` is the outside itself, of which nothing is known: it
-- decides what each call of a foreign service answers, and every such call may change it.
pub mod Collection
use operator_registry_contro.Prelude.{
  ℕ, Option, List, [], ◌∷◌, ◌++◌, Text, Result, ok, err, Action, Ensures, ok-injective, err-ne-ok,
  ap, ◌≡◌, refl, ◌∙◌,
}
use operator_registry_contro.Validation.Dto.{Double, RelayInfo}
use operator_registry_contro.Verification.Dto.{
  VerificationData, VerifiedHardware, HardwareVerificationFailure, KnownDevice,
}

-- What reaches the program's `catch` clauses.
pub data Error : Type 0 where
  -- thrown by a foreign call, with its message
  service_error : Text → Error
  -- a property of `undefined` is read
  type_error : Error
  -- `throw undefined`
  undefined_error : Error
  relay_data_not_found : Text → Error
  signer_not_defined : Error
  process_error : Text → Error
  no_messages : Error

pub record Tag : Type 0 where
  pub name : Text
  pub value : Text

pub record AoMessage : Type 0 where
  pub process_id : Text
  pub tags : List Tag
  pub payload : Option Text

pub record Upload : Type 0 where
  pub payload : Text
  pub tags : List Tag

-- The value that `new Date(header).getTime()` leaves in a field: a number may be NaN.
pub data Stamp : Type 0 where
  undefined : Stamp
  nan : Stamp
  at : ℕ → Stamp

pub record FingerprintGeoLocation : Type 0 where
  pub hex_id : Text
  pub coordinates : Double × Double

pub record GeoIp : Type 0 where
  pub fingerprint_map_data : List (Text × FingerprintGeoLocation)
  pub last_response_timestamp : Stamp

pub record World (E : Type 0) : Type 0 where
  pub env : E
  pub relay_infos : List RelayInfo
  pub verified_hardware : List VerifiedHardware
  pub hardware_failures : List HardwareVerificationFailure
  pub known_devices : List KnownDevice
  pub verifications : List VerificationData
  pub sent : List AoMessage
  pub slept : List ℕ
  pub uploads : List Upload
  pub geo_ip : GeoIp

-- A foreign call: its answer, or the message of the error that it throws.
abbrev pub Call : Type 0 → Type 0 → Type 0
Call E A = E → Result Text A × E

abbrev pub as_error : {A : Type 0} → Result Text A → Result Error A
as_error (ok a) = ok a
as_error (err m) = err (service_error m)

pub as_error-ok : {A : Type 0} (r : Result Text A) {a : A} → as_error r ≡ ok a → r ≡ ok a
as_error-ok (ok a) h = ap (λ a. ok a) (ok-injective h)
as_error-ok (err message) h = absurd (err-ne-ok h)

pub Ensures-as_error :
    {S A : Type 0} (P : A → S → Type 0) (K : S → Type 0) (r : Result Text A) (s : S)
    → ((a : A) → r ≡ ok a → P a s)
    → K s
    → Ensures P K (as_error r) s
Ensures-as_error P K (ok a) s h k = h a refl
Ensures-as_error P K (err m) s h k = k

module _ {E : Type 0} where
  abbrev pub ask : {A : Type 0} → Call E A → Action (World E) Error A
  ask call w = let (r, e) = call w.env in (as_error r, record w { env = e })

  -- `Date.now()` and other calls that cannot throw.
  abbrev pub read : {A : Type 0} → (E → A × E) → Action (World E) Error A
  read call w = let (a, e) = call w.env in (ok a, record w { env = e })

  -- `await new Promise(resolve => setTimeout(resolve, ms))`
  abbrev pub sleep : ℕ → Action (World E) Error (Unit {0})
  sleep ms w = (ok tt, record w { slept = w.slept ++ ms ∷ [] })

-- The stored relays, the known devices, the records of verifications and what was sent or uploaded are as they were.
pub record IsQuiet {E : Type 0} (w w' : World E) : Type 0 where
  pub sent_eq : w'.sent ≡ w.sent
  pub relay_infos_eq : w'.relay_infos ≡ w.relay_infos
  pub uploads_eq : w'.uploads ≡ w.uploads
  pub verifications_eq : w'.verifications ≡ w.verifications
  pub known_devices_eq : w'.known_devices ≡ w.known_devices

pub IsQuiet-refl : {E : Type 0} (w : World E) → IsQuiet w w
IsQuiet-refl w = record {
  sent_eq = refl;
  relay_infos_eq = refl;
  uploads_eq = refl;
  verifications_eq = refl;
  known_devices_eq = refl;
}

pub IsQuiet-trans : {E : Type 0} {u v w : World E} → IsQuiet u v → IsQuiet v w → IsQuiet u w
IsQuiet-trans p q = record {
  sent_eq = q.sent_eq ∙ p.sent_eq;
  relay_infos_eq = q.relay_infos_eq ∙ p.relay_infos_eq;
  uploads_eq = q.uploads_eq ∙ p.uploads_eq;
  verifications_eq = q.verifications_eq ∙ p.verifications_eq;
  known_devices_eq = q.known_devices_eq ∙ p.known_devices_eq;
}
