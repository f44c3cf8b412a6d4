-- ===== src/Tasks/TasksQueue.antt =====
-- src/tasks/processors/tasks-queue.ts
use operator_registry_contro.Prelude.{
  true, Option, none, some, List, [], ◌∷◌, Text, Action, ◌>>◌, pure, throw,
}
use operator_registry_contro.Validation.Dto.{ValidationDataDto}
use operator_registry_contro.World.{Error, type_error}
use operator_registry_contro.Tasks.Site.{Site, Broker, validation_flow, verification_flow, post}
use operator_registry_contro.Tasks.TasksService.{default_delay, queue_validate_relays}

-- The job's name, with the values of its children: a child that returned `undefined` has the value null.
pub data TasksJob : Type 0 where
  job_validate : TasksJob
  job_verify : List (Option ValidationDataDto) → TasksJob
  job_unknown : Text → TasksJob

module _ {E : Type 0} (b : Broker E) where
  -- `validationData[0]`, of which properties are read
  pub start_verification : List (Option ValidationDataDto) → Action (Site E) Error (Unit {0})
  start_verification [] = pure tt
  start_verification (none ∷ values) = throw type_error
  start_verification (some validation ∷ values) = post b (verification_flow validation)

  unfoldable pub process : TasksJob → Action (Site E) Error (Unit {0})
  unfolding start_verification
  process job_validate = do post b validation_flow; queue_validate_relays b default_delay true
  process (job_verify values) = start_verification values
  process (job_unknown name) = pure tt
