-- ===== src/Cluster.antt =====
-- src/cluster/cluster.service.ts: which instance acts on one-time events. The client of the package consul
-- is a parameter, through its answers; the timer that renews the session keeps no state here.
pub mod Leader
pub mod AppThreads
use operator_registry_contro.Prelude.{
  Bool, true, false, ◌&&◌, Option, none, some, List, [], ◌∷◌, Text, text, ◌==◌, is_empty, not,
  Result, ok, err,
}

pub record ClusterConfig : Type 0 where
  pub is_live : Option Text
  pub consul_host : Option Text
  pub consul_port : Option Text
  pub consul_service_name : Option Text

-- What the constructor throws.
pub data ClusterError : Type 0 where
  missing_service_name : ClusterError
  not_connected : Text → ClusterError

pub record ClusterService : Type 0 where
  -- none while the resolution of the leader has not finished
  pub is_leader : Option Bool
  pub has_consul : Bool
  pub session_id : Option Text

-- `!value`
abbrev pub is_missing : Option Text → Bool
is_missing none = true
is_missing (some value) = is_empty value

abbrev pub equals_true : Option Text → Bool
equals_true none = false
equals_true (some value) = value == text "true"

abbrev pub single_node : ClusterService
single_node = record { is_leader = some true; has_consul = false; session_id = none }

abbrev pub connected : Result Text (Unit {0}) → Result ClusterError ClusterService
connected (ok t) = ok (record { is_leader = none; has_consul = true; session_id = none })
connected (err message) = err (not_connected message)

-- The constructor, where `connection` is what `new Consul(...)` does.
unfoldable pub new_cluster_service :
    ClusterConfig → Result Text (Unit {0}) → Result ClusterError ClusterService
new_cluster_service config connection = elim (equals_true config.is_live) [
  | false ↦ ok single_node
  | true ↦ elim (is_missing config.consul_host) [
    | true ↦ ok single_node
    | false ↦ elim (is_missing config.consul_port) [
      | true ↦ ok single_node
      | false ↦ elim (is_missing config.consul_service_name) [
        | true ↦ err missing_service_name
        | false ↦ connected connection
      ]
    ]
  ]
]

-- `isTheOne`; the second argument is the variable IS_LOCAL_LEADER of the process.
unfoldable pub is_the_one : ClusterService → Option Text → Bool
is_the_one c is_local_leader = elim c.is_leader [
  | none ↦ false
  | some b ↦ b && equals_true is_local_leader
]

-- `acquireLock`, by the answer of `consul.kv.set`
unfoldable pub acquire_lock : Result Text Bool → ClusterService → ClusterService
acquire_lock answer c = elim (not (is_missing c.session_id) && c.has_consul) [
  | false ↦ c
  | true ↦ elim answer [ ok result ↦ record c { is_leader = some result } | err message ↦ c ]
]

-- The handler of `change`: the first argument says whether the key has data.
unfoldable pub on_change : Bool → Result Text Bool → ClusterService → ClusterService
on_change true answer c = c
on_change false answer c = acquire_lock answer c

-- `onApplicationBootstrap`, by the answers of `session.create` and of the first `kv.set`
unfoldable pub bootstrap :
    Option Text → Result Text Text → Result Text Bool → ClusterService → ClusterService
bootstrap is_local_leader session answer c = elim (c.has_consul && equals_true is_local_leader) [
  | false ↦ c
  | true ↦ elim session [
    | err message ↦ c
    | ok id ↦ acquire_lock answer (record c { session_id = some id })
  ]
]

-- The changes of the key that an instance sees, with the answers to its calls.
abbrev pub Changes : Type 0
Changes = List (Bool × Result Text Bool)

unfoldable pub run : Changes → ClusterService → ClusterService
unfolding on_change
run [] c = c
run ((has_data, answer) ∷ changes) c = run changes (on_change has_data answer c)
