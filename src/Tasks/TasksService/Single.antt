-- ===== src/Tasks/TasksService/Single.antt =====
-- At most one job `validate` is added, and none while the tasks queue has others.
use operator_registry_contro.Prelude.{
  ℕ, ◌+◌, ◌≡◌, refl, ◌∙◌, ◌⊎◌, inl, inr, Bool, true, false, [], ◌∷◌, ◌++◌, Result, ok, err,
  continue, ltb, Bool-cases, arith,
}
use operator_registry_contro.World.{Error}
use operator_registry_contro.Tasks.Site.{Site, Broker, added, validate, count_jobs, add}
use operator_registry_contro.Tasks.TasksService.{active_jobs, queue_unless, queue_validate_relays}

module _ {E : Type 0} (b : Broker E) (delay : ℕ) (s : Site E) where
  -- What was counted so far.
  abbrev Counted : Result Error ℕ → ℕ → Site E → Type 0
  Counted r n v = (r ≡ ok n) × (v.requests ≡ s.requests)

  -- The requests are as before, or the job was added, all counts that were made being 0.
  abbrev pub IsSingle : Result Error ℕ → Result Error ℕ → Result Error ℕ → Site E → Type 0
  IsSingle waiting delayed active v =
      (v.requests ≡ s.requests)
      ⊎ ((waiting ≡ ok 0)
          × (delayed ≡ ok 0)
          × (active ≡ ok 0)
          × (v.requests ≡ s.requests ++ added (validate delay) ∷ []))

  queued :
      (w d a : ℕ) (waiting delayed active : Result Error ℕ) (v : Site E)
      → waiting ≡ ok w
      → delayed ≡ ok d
      → active ≡ ok a
      → v.requests ≡ s.requests
      → IsSingle waiting delayed active (queue_unless b (w + d + a) delay v).1
  unfolding queue_unless add
  queued w d a waiting delayed active v ew ed ea e = elim (Bool-cases (ltb 0 (w + d + a))) [
    | inl busy ↦ rw busy (inl e)
    | inr idle ↦
        let zero_w : w ≡ 0 = ground arith in
        let zero_d : d ≡ 0 = ground arith in
        let zero_a : a ≡ 0 = ground arith in
        rw idle (inr (rw zero_w at ew, rw zero_d at ed, rw zero_a at ea, rw e refl))
  ]

  after_active :
      (w d : ℕ) (waiting delayed active r : Result Error ℕ) (v : Site E)
      → waiting ≡ ok w
      → delayed ≡ ok d
      → active ≡ r
      → v.requests ≡ s.requests
      → IsSingle waiting delayed active (continue r (λ a. queue_unless b (w + d + a) delay) v).1
  after_active w d waiting delayed active (ok a) v ew ed ea e =
      queued w d a waiting delayed active v ew ed ea e
  after_active w d waiting delayed active (err x) v ew ed ea e = inl e

  active_jobs-keeps : (skip : Bool) (v : Site E) → (active_jobs b skip v).1.requests ≡ v.requests
  active_jobs-keeps true v = refl
  active_jobs-keeps false v = refl

  after_delayed :
      (skip : Bool) (w : ℕ) (waiting delayed r : Result Error ℕ) (v : Site E)
      → waiting ≡ ok w
      → delayed ≡ r
      → v.requests ≡ s.requests
      → IsSingle waiting delayed
          (active_jobs b skip v).0
          (continue r
            (λ d u.
              continue
                (active_jobs b skip u).0
                (λ a. queue_unless b (w + d + a) delay)
                (active_jobs b skip u).1)
            v).1
  after_delayed skip w waiting delayed (ok d) v ew ed e =
      after_active w d waiting delayed (active_jobs b skip v).0 (active_jobs b skip v).0
        (active_jobs b skip v).1 ew ed refl (active_jobs-keeps skip v ∙ e)
  after_delayed skip w waiting delayed (err x) v ew ed e = inl e

  abbrev waiting_count : Result Error ℕ × Site E
  waiting_count = count_jobs b.get_waiting_count s

  abbrev delayed_count : Result Error ℕ × Site E
  delayed_count = count_jobs b.get_delayed_count waiting_count.1

  after_waiting :
      (skip : Bool) (r : Result Error ℕ)
      → waiting_count.0 ≡ r
      → IsSingle waiting_count.0 delayed_count.0
          (active_jobs b skip delayed_count.1).0
          (continue r
            (λ w u.
              continue
                (count_jobs b.get_delayed_count u).0
                (λ d u.
                  continue
                    (active_jobs b skip u).0
                    (λ a. queue_unless b (w + d + a) delay)
                    (active_jobs b skip u).1)
                (count_jobs b.get_delayed_count u).1)
            waiting_count.1).1
  after_waiting skip (ok w) e =
      after_delayed skip w waiting_count.0 delayed_count.0 delayed_count.0 delayed_count.1 e refl
        refl
  after_waiting skip (err x) e = inl refl

  -- Whatever the broker answers, at most the one job `validate` with the given delay is added, and then
  -- the counts of waiting and of delayed jobs were 0, and that of active jobs unless it was skipped
  -- (a skipped count is 0).
  pub queue_validate_relays-IsSingle :
      (skip : Bool)
      → IsSingle
          (count_jobs b.get_waiting_count s).0
          (count_jobs b.get_delayed_count (count_jobs b.get_waiting_count s).1).0
          (active_jobs b skip
            (count_jobs b.get_delayed_count (count_jobs b.get_waiting_count s).1).1).0
          (queue_validate_relays b delay skip s).1
  unfolding queue_validate_relays
  queue_validate_relays-IsSingle skip = after_waiting skip waiting_count.0 refl
