-- ===== src/Tasks/TasksService.antt =====
-- src/tasks/tasks.service.ts
pub mod Single
use operator_registry_contro.Prelude.{
  ℕ, zero, suc, ◌+◌, ◌*◌, Bool, true, false, Option, none, some, List, [], ◌∷◌, Text, text, ◌==◌,
  ltb, if◌then◌else◌, Result, ok, err, Action, ◌>>=◌, ◌>>◌, pure, try_catch,
}
use operator_registry_contro.World.{World, Error}
use operator_registry_contro.Tasks.Site.{
  Site, Broker, QueueName, tasks_queue, validation_queue, verification_queue, QueueJob, validate,
  count_jobs, add, obliterate,
}

-- 1000 * 60 * 60 * 1, one hour in ms
abbrev pub default_delay : ℕ
default_delay = 3600000

pub record TasksConfig : Type 0 where
  pub is_live : Option Text
  pub do_clean : Option Text

-- `setting === 'true'`
abbrev pub is_true : Option Text → Bool
is_true none = false
is_true (some s) = s == text "true"

module _ {E : Type 0} (b : Broker E) where
  -- `numJobsInQueue += await this.tasksQueue.getActiveCount()`, unless the check is skipped
  abbrev pub active_jobs : Bool → Action (Site E) Error ℕ
  active_jobs true = pure 0
  active_jobs false = count_jobs b.get_active_count

  -- what follows the counting
  pub queue_unless : ℕ → ℕ → Action (Site E) Error (Unit {0})
  queue_unless num_jobs_in_queue delay_job =
      if ltb 0 num_jobs_in_queue then pure tt else add b (validate delay_job)

  unfoldable pub queue_validate_relays : ℕ → Bool → Action (Site E) Error (Unit {0})
  unfolding queue_unless
  queue_validate_relays delay_job skip_active_check = do
    waiting ← count_jobs b.get_waiting_count
    delayed ← count_jobs b.get_delayed_count
    active ← active_jobs skip_active_check
    queue_unless (waiting + delayed + active) delay_job

  pub clean_queues : Action (Site E) Error (Unit {0})
  clean_queues = do
    obliterate b tasks_queue
    obliterate b validation_queue
    obliterate b verification_queue

  pub clean_if : Bool → Action (Site E) Error (Unit {0})
  unfolding clean_queues
  clean_if true = clean_queues
  clean_if false = pure tt

  -- `onApplicationBootstrap`; the flag is what `isTheOne` returns.
  unfoldable pub on_application_bootstrap : Bool → TasksConfig → Action (Site E) Error (Unit {0})
  unfolding clean_if queue_validate_relays
  on_application_bootstrap false config = pure tt
  on_application_bootstrap true config = do
    clean_if (if is_true config.is_live then false else true)
    clean_if (is_true config.do_clean)
    try_catch (queue_validate_relays 0 false) (λ error. pure tt)
