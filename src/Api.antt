-- ===== src/Api.antt =====
-- hpe_storage_api.py: the requests of Docker. A handler ends with an error that is returned or an
-- exception that Python raises, or it passes the request on.
pub mod Inversion
pub mod Replication
pub mod Snapshot
pub mod Create
pub mod Routes
use python_hpedockerplugin.Prelude.{String, Bool, true, false, Option, none, some, List}
use python_hpedockerplugin.Request.{Opts, Reason}
use python_hpedockerplugin.Python.{ℤ}

-- The texts of the errors.
pub data Message : Type 0 where
  -- the text of an exception of the validator
  rejected : Reason → Message
  not_valid_option : String → Message
  exclusive_options : List String → Message
  reserved_for_files backend_misconfigured backend_not_in_config : String → Message
  invalid_size invalid_compression invalid_flash_cache : Message
  invalid_fs_owner invalid_fs_mode fs_mode_not_octal invalid_delay : String → Message
  cpg_not_for_snapshot no_schedule_name no_virtual_copy group_with_cpg : Message
  no_replication_device : String → Message
  unknown_replication_mode : String → Message
  not_synchronous period_not_allowed period_not_numeric period_out_of_range : Message
  hours_with_schedule no_frequency retention_too_long no_name_or_prefix empty_name empty_prefix :
      Message
  name_too_long invalid_frequency : Message
  block_not_configured file_not_configured : Message

-- Exceptions that no handler catches.
pub data Exception : Type 0 where
  value_error attribute_error : Exception
  key_error : String → Exception

-- What `volumedriver_create` passes to the orchestrator for a new volume.
pub record CreateRequest : Type 0 where
  pub name : String
  pub vol_size : ℤ
  pub vol_prov : String
  pub vol_flash : Option String
  pub compression_val : Option String
  pub vol_qos : Option String
  pub fs_owner : Option String
  pub fs_mode : Option String
  pub mount_conflict_delay : ℤ
  pub cpg : Option String
  pub snap_cpg : Option String
  pub current_backend : String
  pub rcg_name : Option String

pub record CloneRequest : Type 0 where
  pub src_vol_name : String
  pub clone_name : String
  pub size : Option ℤ
  pub cpg : Option String
  pub snap_cpg : Option String
  pub clone_opts : Opts

pub record SnapshotRequest : Type 0 where
  pub src_vol_name : String
  pub sched_name : Option String
  pub snapshot_name : String
  pub snap_prefix : Option String
  pub expiration_hrs : Option ℤ
  pub exphrs : Option ℤ
  pub retention_hrs : Option ℤ
  pub rethrs : Option ℤ
  pub mount_conflict_delay : ℤ
  pub has_schedule : Bool
  pub sched_frequency : Option String

-- What ends a handler before it has passed the request on.
pub data Ending : Type 0 where
  error : Message → Ending
  raises : Exception → Ending
  -- `{"Err": ""}` for a name that exists already
  exists : Ending

-- To what a request is passed on.
pub data Answer : Type 0 where
  help : String → Answer
  create_file : Opts → Answer
  manage_existing : (name existing_ref backend : String) → Opts → Answer
  clone_volume : CloneRequest → Answer
  create_snapshot : SnapshotRequest → Answer
  create_volume : CreateRequest → Answer

-- A statement that ends the handler, or goes on with a value.
pub data Flow (A : Type 0) : Type 0 where
  stop : Ending → Flow A
  go : A → Flow A

infixl 5 ◌>>=◌ ◌>>◌
unfoldable pub ◌>>=◌ : {A B : Type 0} → Flow A → (A → Flow B) → Flow B
stop ending >>= f = stop ending
go a >>= f = f a

abbrev pub ◌>>◌ : {A B : Type 0} → Flow A → Flow B → Flow B
m >> n = m >>= λ _. n

-- `if test: return ending`
unfoldable pub stop_if : Bool → Ending → Flow (Unit {0})
stop_if true ending = stop ending
stop_if false ending = go tt

unfoldable pub or_stop : {A : Type 0} → Option A → Ending → Flow A
or_stop none ending = stop ending
or_stop (some a) ending = go a

-- `replication_device` of a backend's configuration, a dictionary.
pub record ReplicationDevice : Type 0 where
  pub replication_mode : Option String
  pub quorum_witness_ip : Option String
  pub sync_period : Option String

pub record BackendConfig : Type 0 where
  pub replication_device : Option ReplicationDevice
