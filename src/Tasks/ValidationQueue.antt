-- ===== src/Tasks/ValidationQueue.antt =====
-- src/tasks/processors/validation-queue.ts
use operator_registry_contro.Prelude.{
  List, [], flatten, Text, ok, err, Action, ◌>>=◌, pure, try_catch,
}
use operator_registry_contro.Validation.Dto.{ValidationDataDto}
use operator_registry_contro.Validation.ValidationService.{
  ValidationService, DetailsRelay, fetch_new_relays, filter_relays, validate_relays,
}
use operator_registry_contro.World.{Error}
use operator_registry_contro.Tasks.Site.{Site, within}

pub data ValidationJob : Type 0 where
  job_fetch_relays : ValidationJob
  job_validate_relays : List (List Text) → ValidationJob
  job_unknown : Text → ValidationJob

pub data ValidationOutcome : Type 0 where
  fingerprints : List Text → ValidationOutcome
  validation_data : ValidationDataDto → ValidationOutcome
  undefined : ValidationOutcome

module _ {E : Type 0} (x : ValidationService E) where
  -- `fetchNewRelays` on the field `lastSeen`
  pub fetched : Action (Site E) Error (List DetailsRelay)
  fetched s =
      let (r, w) = fetch_new_relays x s.last_seen s.world in
      elim r [
        | ok (relays, seen) ↦ (ok relays, record s { world = w; last_seen = seen })
        | err e ↦ (err e, record s { world = w })
      ]

  fetch_relays : Action (Site E) Error ValidationOutcome
  unfolding fetched
  fetch_relays = do
    relays ← fetched
    names ← within (filter_relays x relays)
    pure (fingerprints names)

  validate : List (List Text) → Action (Site E) Error ValidationOutcome
  validate children = do
    result ← within (validate_relays x (flatten children))
    pure (validation_data result)

  unfoldable pub process : ValidationJob → Action (Site E) Error ValidationOutcome
  unfolding fetch_relays validate
  process job_fetch_relays = try_catch fetch_relays (λ error. pure (fingerprints []))
  process (job_validate_relays children) = try_catch (validate children) (λ error. pure undefined)
  process (job_unknown name) = pure undefined
