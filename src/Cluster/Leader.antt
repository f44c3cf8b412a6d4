-- ===== src/Cluster/Leader.antt =====
-- Who leads after a series of changes of the key.
use operator_registry_contro.Prelude.{
  ◌≡◌, refl, ap, ◌∙◌, Bool, true, false, ◌&&◌, Option, none, some, [], ◌∷◌, Text, ok, err, not,
  arith, Bool-cases, inl, inr,
}
use operator_registry_contro.Cluster.{
  ClusterService, is_missing, equals_true, is_the_one, acquire_lock, on_change, bootstrap, Changes,
  run,
}

-- The last answer to an attempt that a change of the key without data caused, or what was before.
abbrev pub last_answer : Changes → Option Bool → Option Bool
last_answer [] before = before
last_answer ((false, ok result) ∷ changes) before = last_answer changes (some result)
last_answer (_ ∷ changes) before = last_answer changes before

abbrev pub holds : Option Bool → Bool
holds none = false
holds (some b) = b

acquired :
    (b : Bool) (c : ClusterService)
    → (not (is_missing c.session_id) && c.has_consul) ≡ true
    → acquire_lock (ok b) c ≡ record c { is_leader = some b }
unfolding acquire_lock
acquired b c h = rw (h, acquire_lock) refl

not_answered : (m : Text) (c : ClusterService) → acquire_lock (err m) c ≡ c
unfolding acquire_lock
not_answered m c = elim (Bool-cases (not (is_missing c.session_id) && c.has_consul)) [
  | inl h ↦ rw (h, acquire_lock) refl
  | inr h ↦ rw (h, acquire_lock) refl
]

run_session :
    (changes : Changes) (c : ClusterService)
    → (not (is_missing c.session_id) && c.has_consul) ≡ true
    → (run changes c).is_leader ≡ last_answer changes c.is_leader
unfolding run on_change
run_session [] c h = refl
run_session ((true, ok b) ∷ changes) c h = run_session changes c h
run_session ((true, err m) ∷ changes) c h = run_session changes c h
run_session ((false, ok b) ∷ changes) c h =
    ap (λ d. (run changes d).is_leader) (acquired b c h)
    ∙ run_session changes (record c { is_leader = some b }) h
run_session ((false, err m) ∷ changes) c h =
    ap (λ d. (run changes d).is_leader) (not_answered m c) ∙ run_session changes c h

ready :
    (c : ClusterService) (id : Text)
    → is_missing (some id) ≡ false
    → c.has_consul ≡ true
    → (not (is_missing (some id)) && c.has_consul) ≡ true
ready c id named consul = ground arith

bootstrapped :
    (c : ClusterService) (is_local_leader : Option Text) (id : Text) (first : Bool)
    → is_missing (some id) ≡ false
    → c.has_consul ≡ true
    → equals_true is_local_leader ≡ true
    → bootstrap is_local_leader (ok id) (ok first) c
      ≡ record c { session_id = some id; is_leader = some first }
unfolding bootstrap
bootstrapped c is_local_leader id first named consul local =
    bootstrap_if (c.has_consul && equals_true is_local_leader) (ground arith)
      (acquired first (record c { session_id = some id }) (ready c id named consul))
  where
    bootstrap_if :
        (b : Bool)
        → b ≡ true
        → acquire_lock (ok first) (record c { session_id = some id })
          ≡ record c { session_id = some id; is_leader = some first }
        → (elim b [
          | false ↦ c
          | true ↦ acquire_lock (ok first) (record c { session_id = some id })
        ])
          ≡ record c { session_id = some id; is_leader = some first }
    bootstrap_if true e h = h
    bootstrap_if false e h = cc

is_the_one-holds :
    (o : Option Bool) (c : ClusterService) (is_local_leader : Option Text)
    → equals_true is_local_leader ≡ true
    → is_the_one (record c { is_leader = o }) is_local_leader ≡ holds o
unfolding is_the_one
is_the_one-holds none c is_local_leader local = refl
is_the_one-holds (some b) c is_local_leader local = ground arith

-- An instance that has a client, is the local leader, got a session and was answered at its first
-- attempt is the one after any series of changes exactly if the last attempt that was answered acquired
-- the lock: failed attempts and changes with data, such as another instance's lock, leave that as it was.
pub run-is_the_one :
    (c : ClusterService) (is_local_leader : Option Text) (id : Text) (first : Bool)
    (changes : Changes)
    → is_missing (some id) ≡ false
    → c.has_consul ≡ true
    → equals_true is_local_leader ≡ true
    → is_the_one (run changes (bootstrap is_local_leader (ok id) (ok first) c)) is_local_leader
      ≡ holds (last_answer changes (some first))
unfolding is_the_one
run-is_the_one c is_local_leader id first changes named consul local =
    let started = record c { session_id = some id; is_leader = some first } in
    ap (λ d. is_the_one (run changes d) is_local_leader)
      (bootstrapped c is_local_leader id first named consul local)
    ∙ ap (λ o. is_the_one (record c { is_leader = o }) is_local_leader)
        (run_session changes started (ready c id named consul))
    ∙ is_the_one-holds (last_answer changes (some first)) c is_local_leader local
