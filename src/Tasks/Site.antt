-- ===== src/Tasks/Site.antt =====
-- What the processors of jobs share: the services' state, and what was asked of the broker.
use operator_registry_contro.Prelude.{ℕ, List, [], ◌∷◌, ◌++◌, Text, ok, Action}
use operator_registry_contro.Validation.Dto.{ValidationDataDto}
use operator_registry_contro.Verification.Dto.{VerificationRecovery}
use operator_registry_contro.World.{World, Error, Call, as_error}

pub data QueueName : Type 0 where
  tasks_queue validation_queue verification_queue : QueueName

-- What is added: a job, or a tree of jobs of which the children run first. The job `persist-verification`
-- of a verification flow runs after `confirm-verification`, and that after `verify-relays`.
pub data QueueJob : Type 0 where
  -- `validate`, with its delay
  validate : ℕ → QueueJob
  -- VALIDATION_FLOW
  validation_flow : QueueJob
  -- VERIFICATION_FLOW(validation)
  verification_flow : ValidationDataDto → QueueJob
  -- JOB_RECOVER_PERSIST_VERIFICATION
  recover_persist_verification : VerificationRecovery → QueueJob

pub data Request : Type 0 where
  obliterated : QueueName → Request
  added : QueueJob → Request

pub record Site (E : Type 0) : Type 0 where
  pub world : World E
  pub requests : List Request
  -- `lastSeen` of the validation service
  pub last_seen : Text

-- What the broker is asked.
pub record Broker (E : Type 0) : Type 0 where
  pub get_waiting_count : Call E ℕ
  pub get_delayed_count : Call E ℕ
  pub get_active_count : Call E ℕ
  pub add : QueueJob → Call E (Unit {0})
  pub obliterate : QueueName → Call E (Unit {0})

module _ {E : Type 0} where
  -- a service's method as a step of a processor
  abbrev pub within : {A : Type 0} → Action (World E) Error A → Action (Site E) Error A
  within m s = let (r, w) = m s.world in (r, record s { world = w })

  abbrev pub count_jobs : Call E ℕ → Action (Site E) Error ℕ
  count_jobs call s =
      let (r, e) = call s.world.env in (as_error r, record s { world = record s.world { env = e } })

  module _ (b : Broker E) where
    -- `await queue.add(...)`
    unfoldable pub add : QueueJob → Action (Site E) Error (Unit {0})
    add job s =
        let (r, e) = b.add job s.world.env in
        (
          as_error r,
          record s { world = record s.world { env = e }; requests = s.requests ++ added job ∷ [] },
        )

    -- `queue.add(...)`, without `await`: what it throws reaches no one
    unfoldable pub post : QueueJob → Action (Site E) Error (Unit {0})
    unfolding add
    post job s = (ok tt, (add job s).1)

    unfoldable pub obliterate : QueueName → Action (Site E) Error (Unit {0})
    obliterate queue s =
        let (r, e) = b.obliterate queue s.world.env in
        (
          as_error r,
          record s {
            world = record s.world { env = e };
            requests = s.requests ++ obliterated queue ∷ [];
          },
        )
