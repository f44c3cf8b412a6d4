-- ===== src/Examples/Clustering.antt =====
-- The theorem on the leader at four changes of the key.
use operator_registry_contro.Prelude.{
  ◌≡◌, refl, true, false, none, some, [], ◌∷◌, text, ok, err, text_eq,
}
use operator_registry_contro.Cluster.{ClusterService, Changes, is_the_one, bootstrap, run}
use operator_registry_contro.Cluster.Leader.{run-is_the_one}

abbrev fresh_service : ClusterService
fresh_service = record { is_leader = none; has_consul = true; session_id = none }

abbrev four_changes : Changes
four_changes =
    (true, ok false) ∷ (false, ok true) ∷ (false, err (text "timeout")) ∷ (true, ok false) ∷ []

run-is_the_one_example :
    is_the_one
      (run four_changes
        (bootstrap (some (text "true")) (ok (text "session")) (ok false) fresh_service))
      (some (text "true"))
    ≡ true
unfolding text_eq
run-is_the_one_example =
    run-is_the_one fresh_service (some (text "true")) (text "session") false four_changes refl refl
      refl
