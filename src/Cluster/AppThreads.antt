-- ===== src/Cluster/AppThreads.antt =====
-- src/cluster/app-threads.service.ts: the processes that `parallelize` starts, and which of them is the
-- leader among them. `cluster.fork` of Node starts a process with more variables.
use operator_registry_contro.Prelude.{
  ℕ, zero, suc, ◌+◌, ◌<◌, ◌≤◌, ◌≡◌, refl, Bool, true, false, Option, none, some, List, [], ◌∷◌,
  ◌++◌, Text, text, text_eq, is_empty, ◌∙◌, count, count-snoc, length, length-append, ltb, eqb,
  if◌then◌else◌, Bool-cases, inl, inr, arith,
}
use operator_registry_contro.Prelude.Numbers.{parse_int}
use operator_registry_contro.Cluster.{equals_true, single_node, is_the_one}

-- What a run of `parallelize` has done.
pub record Started : Type 0 where
  -- the variable IS_LOCAL_LEADER of each process that was forked
  pub forked : List (Option Text)
  -- that variable of this process
  pub is_local_leader : Option Text
  pub has_called_back : Bool

-- `${isLocalLeader}`, as a variable of a process is
abbrev pub boolean_text : Bool → Text
boolean_text true = text "true"
boolean_text false = text "false"

unfoldable pub create_leader_aware_worker : Bool → Started → Started
create_leader_aware_worker is_local_leader s = record s {
  forked = s.forked ++ some (boolean_text is_local_leader) ∷ [];
}

-- `for (let i = 0; i < numThreads; i++)`, for as many rounds as are left
unfoldable pub fork_from : ℕ → ℕ → Started → Started
unfolding create_leader_aware_worker
fork_from zero i s = s
fork_from (suc n) i s = fork_from n (suc i) (create_leader_aware_worker (eqb i 0) s)

-- `process.env.CPU_COUNT || '1'`
abbrev pub cpu_count_or_one : Option Text → Text
cpu_count_or_one none = text "1"
cpu_count_or_one (some value) = if is_empty value then text "1" else value

-- `Math.min(countCPUs, maxCPUs)` for what `parseInt` reads; NaN and what is less than 0 are as 0 is, not
-- greater than 1.
abbrev pub threads : Option (Bool × ℕ) → ℕ → ℕ
threads none max_cpus = 0
threads (some (true, n)) max_cpus = 0
threads (some (false, n)) max_cpus = if ltb n max_cpus then n else max_cpus

unfoldable pub num_threads : Option Text → ℕ → ℕ
unfolding parse_int
num_threads cpu_count max_cpus = threads (parse_int (cpu_count_or_one cpu_count)) max_cpus

abbrev pub start_single : Started → Started
start_single s = record s { is_local_leader = some (text "true"); has_called_back = true }

unfoldable pub parallelize : Bool → Bool → Option Text → ℕ → Started → Started
unfolding num_threads fork_from
parallelize is_primary is_worker cpu_count max_cpus s =
    if is_primary
    then if ltb 1 (num_threads cpu_count max_cpus)
      then fork_from (num_threads cpu_count max_cpus) 0 s
      else start_single s
    else if is_worker
    then record s { has_called_back = true }
    else s

-- The processes of the application after the primary one has started them: those that were forked, which
-- call back as workers, and the primary one, if it has called back.
abbrev own : Started → List (Option Text)
own s = if s.has_called_back then s.is_local_leader ∷ [] else []

unfoldable pub processes : Started → List (Option Text)
processes s = own s ++ s.forked

fork_from-more :
    (n i : ℕ) (s : Started)
    → count equals_true (fork_from n (suc i) s).forked ≡ count equals_true s.forked
unfolding fork_from create_leader_aware_worker text_eq
fork_from-more zero i s = refl
fork_from-more (suc n) i s =
    let other : eqb (suc i) 0 ≡ false = ground arith in
    rw (other, fork_from)
      (fork_from-more n (suc i) (create_leader_aware_worker false s)
        ∙ count-snoc equals_true s.forked (some (text "false"))
        ∙ omega arith)

-- the first round makes the leader
fork_from-leader :
    (n : ℕ) (s : Started)
    → 0 < n
    → count equals_true (fork_from n 0 s).forked ≡ count equals_true s.forked + 1
unfolding fork_from create_leader_aware_worker text_eq
fork_from-leader zero s pos = absurd (omega (arith, pos))
fork_from-leader (suc n) s pos =
    fork_from-more n 0 (create_leader_aware_worker true s)
    ∙ count-snoc equals_true s.forked (some (text "true"))

fork_from-length : (n i : ℕ) (s : Started) → length (fork_from n i s).forked ≡ length s.forked + n
unfolding fork_from create_leader_aware_worker text_eq
fork_from-length zero i s = omega arith
fork_from-length (suc n) i s =
    fork_from-length n (suc i) (create_leader_aware_worker (eqb i 0) s)
    ∙ omega (arith, length-append s.forked (some (boolean_text (eqb i 0)) ∷ []))

fork_from-own : (n i : ℕ) (s : Started) → (fork_from n i s).has_called_back ≡ s.has_called_back
unfolding fork_from create_leader_aware_worker text_eq
fork_from-own zero i s = refl
fork_from-own (suc n) i s = fork_from-own n (suc i) (create_leader_aware_worker (eqb i 0) s)

threads-le :
    (count_cpus : Option (Bool × ℕ)) (max_cpus : ℕ) → threads count_cpus max_cpus ≤ max_cpus
threads-le none max_cpus = omega arith
threads-le (some (true, n)) max_cpus = omega arith
threads-le (some (false, n)) max_cpus = ground arith

num_threads-le :
    (cpu_count : Option Text) (max_cpus : ℕ) → num_threads cpu_count max_cpus ≤ max_cpus
unfolding num_threads
num_threads-le cpu_count max_cpus = threads-le (parse_int (cpu_count_or_one cpu_count)) max_cpus

-- A process that has started nothing yet.
abbrev pub fresh : Option Text → Started
fresh is_local_leader = record {
  forked = [];
  is_local_leader = is_local_leader;
  has_called_back = false;
}

-- Whatever CPU_COUNT and IS_LOCAL_LEADER are in its environment, after the primary process of a machine
-- with a processor has run `parallelize`, exactly one of the processes of the application takes itself for
-- the one in the configuration of a single node, and there are at most as many of them as processors.
pub parallelize-processes :
    (cpu_count is_local_leader : Option Text) (max_cpus : ℕ)
    → 0 < max_cpus
    → (count
          (is_the_one single_node)
          (processes (parallelize true false cpu_count max_cpus (fresh is_local_leader)))
        ≡ 1)
      × (length (processes (parallelize true false cpu_count max_cpus (fresh is_local_leader)))
          ≤ max_cpus)
unfolding parallelize processes is_the_one text_eq
parallelize-processes cpu_count is_local_leader max_cpus pos =
    elim (Bool-cases (ltb 1 (num_threads cpu_count max_cpus))) [
      | inl many ↦
          rw (many, fork_from-own (num_threads cpu_count max_cpus) 0 (fresh is_local_leader))
            (
              fork_from-leader (num_threads cpu_count max_cpus) (fresh is_local_leader)
                    (ground arith)
                  ∙ omega arith,
              omega (
                arith,
                fork_from-length (num_threads cpu_count max_cpus) 0 (fresh is_local_leader),
                num_threads-le cpu_count max_cpus,
              ),
            )
      | inr few ↦ rw few (omega arith, omega (arith, pos))
    ]
