-- ===== src/Api/Create.antt =====
-- hpe_storage_api.py, `volumedriver_create`: how a request of Docker is decided.
pub mod Sound
pub mod Validated
use python_hpedockerplugin.Prelude.{
  ℕ, suc, String, Bool, true, false, not, ◌&&◌, ◌||◌, Option, none, some, List, [], ◌∷◌, lookup,
  contains, is_some, is_empty, length, leb, ltb, ◌==◌, str_eq, if◌then◌else◌,
}
use python_hpedockerplugin.Request.{
  Checked, valid, invalid, Opts, Contents, keys, opts_of, missing, codes,
}
use python_hpedockerplugin.Request.Share.{split_at}
use python_hpedockerplugin.Request.Volume.{validate_request}
use python_hpedockerplugin.Python.{ℤ, pos, is_zero, int, int_of_codes, lower_in, above, truthy}
use python_hpedockerplugin.Api.{
  Answer, error, raises, exists, help, create_file, manage_existing, create_volume, rejected,
  not_valid_option, exclusive_options, reserved_for_files, backend_misconfigured,
  backend_not_in_config, invalid_size, invalid_compression, invalid_flash_cache, invalid_fs_owner,
  invalid_fs_mode, fs_mode_not_octal, invalid_delay, cpg_not_for_snapshot, no_schedule_name,
  no_virtual_copy, group_with_cpg, block_not_configured, value_error, CreateRequest, Flow, stop, go,
  ◌>>=◌, ◌>>◌, stop_if, or_stop, BackendConfig,
}
use python_hpedockerplugin.Api.Replication.{validate_rcg_params}
use python_hpedockerplugin.Api.Snapshot.{
  int_option, volumedriver_create_snapshot, volumedriver_clone_volume,
}

abbrev pub valid_volume_create_opts : List String
valid_volume_create_opts =
    "compression" ∷ "size" ∷ "provisioning" ∷ "flash-cache" ∷ "cloneOf" ∷ "virtualCopyOf"
    ∷ "expirationHours" ∷ "retentionHours" ∷ "qos-name" ∷ "fsOwner" ∷ "fsMode"
    ∷ "mountConflictDelay" ∷ "help" ∷ "importVol" ∷ "cpg" ∷ "snapcpg" ∷ "scheduleName"
    ∷ "scheduleFrequency" ∷ "snapshotPrefix" ∷ "expHrs" ∷ "retHrs" ∷ "backend" ∷ "replicationGroup"
    ∷ "manager" ∷ []

abbrev pub valid_snap_schedule_opts : List String
valid_snap_schedule_opts =
    "scheduleName" ∷ "scheduleFrequency" ∷ "snapshotPrefix" ∷ "expHrs" ∷ "retHrs" ∷ []

abbrev pub schedule_opts : List String
schedule_opts = "scheduleFrequency" ∷ "snapshotPrefix" ∷ "expHrs" ∷ "retHrs" ∷ []

abbrev pub copies_or_groups : List String
copies_or_groups = "virtualCopyOf" ∷ "cloneOf" ∷ "qos-name" ∷ "replicationGroup" ∷ []

abbrev pub copies_or_backend : List String
copies_or_backend = "virtualCopyOf" ∷ "cloneOf" ∷ "backend" ∷ []

abbrev pub has_key : String → Opts → Bool
has_key key opts = is_some (lookup key opts)

-- One of the keys was given.
abbrev pub has_any : List String → Opts → Bool
has_any [] opts = false
has_any (key ∷ rest) opts = let later = has_any rest opts in has_key key opts || later

-- The keys that were given.
abbrev pub count_of : List String → Opts → ℕ
count_of [] opts = 0
count_of (key ∷ rest) opts =
    let later = count_of rest opts in if has_key key opts then suc later else later

-- The loop over the keys of the request.
unfoldable pub check_keys : List String → Flow (Unit {0})
check_keys [] = go tt
check_keys (key ∷ rest) =
    let later = check_keys rest in
    if contains key valid_volume_create_opts then later else stop (error (not_valid_option key))

unfoldable pub check_exclusive : Opts → Flow (Unit {0})
check_exclusive opts = do
  stop_if (leb 2 (count_of copies_or_groups opts)) (error (exclusive_options copies_or_groups))
  stop_if (leb 2 (count_of copies_or_backend opts)) (error (exclusive_options copies_or_backend))

-- A given text that is not empty.
abbrev pub given : String → Opts → Option String
given key opts = elim (lookup key opts) [
  | none ↦ none
  | some value ↦ if str_eq value "" then none else some value
]

abbrev pub text_or : Option String → String → String
text_or none default = default
text_or (some value) default = value

abbrev pub valid_bool_opts : List String
valid_bool_opts = "true" ∷ "false" ∷ []

-- `backends` are those of the configuration, `managers` the keys of the orchestrator's `_manager`, where
-- a backend has an entry from the start of its initialisation on, however that ends.
unfoldable pub check_backend :
    (backends managers : List String) → (default : String) → Option String → Flow String
check_backend backends managers default none = go default
check_backend backends managers default (some backend) = do
  stop_if (str_eq backend "DEFAULT_FILE") (error (reserved_for_files backend))
  stop_if (not (contains backend backends)) (error (backend_not_in_config backend))
  stop_if (not (contains backend managers)) (error (backend_misconfigured backend))
  go backend

unfoldable pub check_size : Option String → Flow ℤ
check_size none = go (pos 100)
check_size (some value) = do
  size ← or_stop (int value) (raises value_error)
  stop_if (is_zero size) (error invalid_size)
  go size

unfoldable pub check_compression : Option String → Flow (Option String)
check_compression none = go none
check_compression (some value) = do
  stop_if (not (lower_in value valid_bool_opts)) (error invalid_compression)
  go (some value)

unfoldable pub check_flash : Option String → Flow (Option String)
check_flash none = go none
check_flash (some value) = do
  stop_if (not (lower_in value valid_bool_opts)) (error invalid_flash_cache)
  go (some value)

-- Two numbers with a colon between them.
abbrev pub is_owner : List (List ℕ) → Bool
is_owner (uid ∷ gid ∷ []) = is_some (int_of_codes uid) && is_some (int_of_codes gid)
is_owner fields = false

unfoldable pub check_fs_owner : Option String → Flow (Option String)
check_fs_owner none = go none
check_fs_owner (some owner) = do
  stop_if (not (is_owner (split_at b':' (codes owner)))) (error (invalid_fs_owner owner))
  go (some owner)

-- Every character of the mode is a digit that is not above 7.
unfoldable pub check_octal : String → List ℕ → Flow (Unit {0})
check_octal mode [] = go tt
check_octal mode (c ∷ cs) =
    let later = check_octal mode cs in
    or_stop (int_of_codes (c ∷ [])) (raises value_error) >>= λ n.
    stop_if (above n 7) (error (fs_mode_not_octal mode)) >> later

abbrev starts_with_zero : List ℕ → Bool
starts_with_zero [] = false
starts_with_zero (c ∷ cs) = c == b'0'

unfoldable pub check_fs_mode : Option String → Flow (Option String)
check_fs_mode none = go none
check_fs_mode (some mode) = do
  number ← or_stop (int mode) (error (invalid_fs_mode mode))
  stop_if (not (starts_with_zero (codes mode))) (error (fs_mode_not_octal mode))
  check_octal mode (codes mode)
  go (some mode)

unfoldable pub check_delay : Option String → Flow ℤ
check_delay none = go (pos 30)
check_delay (some delay) = or_stop (int delay) (error (invalid_delay delay))

-- A snapshot: no array group of its own, and a name where other options of a schedule are given.
unfoldable pub create_snapshot_of : (timestamp name : String) → Opts → ℤ → Flow Answer
create_snapshot_of timestamp name opts delay = do
  stop_if (has_key "cpg" opts || has_key "snapcpg" opts) (error cpg_not_for_snapshot)
  stop_if (has_any schedule_opts opts && not (has_key "scheduleName" opts)) (error no_schedule_name)
  volumedriver_create_snapshot timestamp name opts delay

abbrev pub config_keys : List (String × BackendConfig) → List String
config_keys [] = []
config_keys ((backend, config) ∷ rest) = backend ∷ config_keys rest

module _ (backend_configs : List (String × BackendConfig)) (managers : List String)
    (default_backend timestamp : String) where
  -- The last checks, and the call of the orchestrator.
  unfoldable pub create_on_backend : CreateRequest → Flow Answer
  create_on_backend request = do
    stop_if
        (truthy request.cpg && truthy request.rcg_name
          || truthy request.snap_cpg && truthy request.rcg_name)
        (error group_with_cpg)
    validate_rcg_params backend_configs request.rcg_name request.current_backend
    go (create_volume request)

  -- A new volume with the values of its options.
  unfoldable pub create_regular : String → Opts → CreateRequest → Flow Answer
  create_regular name opts request =
      if has_key "virtualCopyOf" opts
      then create_snapshot_of timestamp name opts request.mount_conflict_delay
      else if has_key "cloneOf" opts
      then volumedriver_clone_volume name opts
      else (stop_if (has_any valid_snap_schedule_opts opts) (error no_virtual_copy)
          >> create_on_backend request)

  unfoldable pub populate : String → String → Opts → Flow CreateRequest
  populate name backend opts = do
    size ← check_size (given "size" opts)
    compression ← check_compression (lookup "compression" opts)
    flash ← check_flash (given "flash-cache" opts)
    owner ← check_fs_owner (given "fsOwner" opts)
    mode ← check_fs_mode (given "fsMode" opts)
    delay ← check_delay (given "mountConflictDelay" opts)
    go (record {
      name = name;
      vol_size = size;
      vol_prov = text_or (given "provisioning" opts) "thin";
      vol_flash = flash;
      compression_val = compression;
      vol_qos = given "qos-name" opts;
      fs_owner = owner;
      fs_mode = mode;
      mount_conflict_delay = delay;
      cpg = given "cpg" opts;
      snap_cpg = given "snapcpg" opts;
      current_backend = backend;
      rcg_name = lookup "replicationGroup" opts;
    })

  -- A request with options, of a known backend.
  unfoldable pub create_with : String → String → Opts → Flow Answer
  create_with name backend opts = elim (lookup "importVol" opts) [
    | some existing_ref ↦ go (manage_existing name existing_ref backend opts)
    | none ↦ elim (lookup "help" opts) [
      | some asked ↦ go (help asked)
      | none ↦ populate name backend opts >>= create_regular name opts
    ]
  ]

  unfoldable pub create_with_opts : String → Opts → Flow Answer
  create_with_opts name opts = do
    check_keys (keys opts)
    check_exclusive opts
    backend ←
        check_backend (config_keys backend_configs) managers default_backend (given "backend" opts)
    create_with name backend opts

  abbrev pub default_request : String → CreateRequest
  default_request name = record {
    name = name;
    vol_size = pos 100;
    vol_prov = "thin";
    vol_flash = none;
    compression_val = none;
    vol_qos = none;
    fs_owner = none;
    fs_mode = none;
    mount_conflict_delay = pos 30;
    cpg = none;
    snap_cpg = none;
    current_backend = default_backend;
    rcg_name = none;
  }

  unfoldable pub check_request : Contents → Flow (Unit {0})
  check_request contents = elim (validate_request (config_keys backend_configs) contents) [
    | valid u ↦ go tt
    | invalid reason ↦ stop (error (rejected reason))
  ]

  -- The block driver's part.
  unfoldable pub create_block : Contents → Flow Answer
  create_block contents = do
    check_request contents
    if is_empty (opts_of contents)
        then create_on_backend (default_request contents.name)
        else create_with_opts contents.name (opts_of contents)

  -- `name_exists` is the answer of `volume_exists` or `share_exists`, `has_block` whether the block
  -- driver is configured.
  unfoldable pub volumedriver_create : (name_exists has_block : Bool) → Contents → Flow Answer
  volumedriver_create name_exists has_block contents =
      stop_if name_exists exists
      >> (if has_key "filePersona" (opts_of contents)
          then go (create_file (opts_of contents))
          else (stop_if (not has_block) (error block_not_configured) >> create_block contents))
