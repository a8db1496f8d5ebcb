-- ===== src/Orchestrator.antt =====
-- backend_orchestrator.py with backend_async_initializer.py: which backend's manager gets a request.
-- The volumes' records in etcd are a dictionary from names to what the orchestrator reads of them.
pub mod Steps
pub mod Agrees
pub mod Cache
use python_hpedockerplugin.Prelude.{
  String, Bool, true, false, Option, none, some, List, [], ◌∷◌, lookup, insert, remove_key,
  if◌then◌else◌,
}

pub data BackendState : Type 0 where
  initializing ready failed : BackendState

-- An entry of `manager_objs`: the state, and whether there is a manager.
pub record Manager : Type 0 where
  pub backend_state : BackendState
  pub mgr : Bool

-- The keys of a volume's record that are read here.
pub record Meta : Type 0 where
  pub has_display_name : Bool
  pub backend : Option String

pub record Orchestrator : Type 0 where
  pub managers : List (String × Manager)
  pub volume_backends_map : List (String × String)
  pub volumes : List (String × Meta)

-- What became of a request: the backend's manager ran it, or there was none.
pub data Execution : Type 0 where
  runs not_initialized : (backend : String) → Execution

-- The entries that `initialize_manager_objects` makes before the threads run.
unfoldable pub initialize_manager_objects : List String → List (String × Manager)
unfolding insert
initialize_manager_objects [] = []
initialize_manager_objects (backend ∷ rest) =
    insert backend (record { backend_state = initializing; mgr = false })
      (initialize_manager_objects rest)

-- The end of a `BackendInitializerThread`: `got_manager` says whether `get_manager` raised nothing.
unfoldable pub finish_initialization : String → (got_manager : Bool) → Orchestrator → Orchestrator
unfolding insert
finish_initialization backend true orchestrator = record orchestrator {
  managers = insert backend (record { backend_state = ready; mgr = true }) orchestrator.managers;
}
finish_initialization backend false orchestrator = record orchestrator {
  managers = insert backend (record { backend_state = failed; mgr = false }) orchestrator.managers;
}

abbrev with_display_name : Option Meta → Option Meta
with_display_name none = none
with_display_name (some meta) = if meta.has_display_name then some meta else none

unfoldable pub get_meta_data_by_name : String → List (String × Meta) → Option Meta
unfolding lookup
get_meta_data_by_name name volumes = with_display_name (lookup name volumes)

module _ (def_backend_name : String) where
  -- The backend of a record, which is then remembered; else the default.
  unfoldable pub cache_backend : String → Option Meta → Orchestrator → String × Orchestrator
  unfolding insert
  cache_backend volname none orchestrator = (def_backend_name, orchestrator)
  cache_backend volname (some meta) orchestrator = elim meta.backend [
    | none ↦ (def_backend_name, orchestrator)
    | some backend ↦ (
      backend,
      record orchestrator {
        volume_backends_map = insert volname backend orchestrator.volume_backends_map;
      },
    )
  ]

  unfoldable pub add_cache_entry : String → Orchestrator → String × Orchestrator
  unfolding cache_backend get_meta_data_by_name
  add_cache_entry volname orchestrator =
      cache_backend volname (get_meta_data_by_name volname orchestrator.volumes) orchestrator

  unfoldable pub get_volume_backend_details : String → Orchestrator → String × Orchestrator
  unfolding add_cache_entry lookup
  get_volume_backend_details volname orchestrator =
      elim (lookup volname orchestrator.volume_backends_map) [
        | some backend ↦ (backend, orchestrator)
        | none ↦ add_cache_entry volname orchestrator
      ]

  unfoldable pub execute_request_for_backend : String → List (String × Manager) → Execution
  unfolding lookup
  execute_request_for_backend backend managers = elim (lookup backend managers) [
    | none ↦ not_initialized backend
    | some manager ↦ if manager.mgr then runs backend else not_initialized backend
  ]

  -- `_execute_request`: the request itself is handed to a thread.
  unfoldable pub execute_request : String → Orchestrator → Execution × Orchestrator
  unfolding get_volume_backend_details execute_request_for_backend
  execute_request volname orchestrator =
      let (backend, looked_up) = get_volume_backend_details volname orchestrator in
      (execute_request_for_backend backend looked_up.managers, looked_up)

  abbrev pub forget : String → Orchestrator → Orchestrator
  forget volname orchestrator = record orchestrator {
    volume_backends_map = remove_key volname orchestrator.volume_backends_map;
  }

  -- The entry of the cache goes when the removal has been handed to its thread.
  unfoldable pub volumedriver_remove : String → Orchestrator → Execution × Orchestrator
  unfolding execute_request remove_key
  volumedriver_remove volname orchestrator =
      let (execution, after) = execute_request volname orchestrator in
      (execution, forget volname after)

  -- An import runs at once, on the backend that the request names.
  unfoldable pub manage_existing :
      (imported : Orchestrator → Orchestrator)
      → (volname backend : String) → Orchestrator
      → Execution × Orchestrator
  unfolding execute_request_for_backend add_cache_entry
  manage_existing imported volname backend orchestrator =
      elim (execute_request_for_backend backend orchestrator.managers) [
        | runs b ↦ (runs b, (add_cache_entry volname (imported orchestrator)).1)
        | not_initialized b ↦ (not_initialized b, (add_cache_entry volname orchestrator).1)
      ]
