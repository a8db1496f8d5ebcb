-- ===== src/Volume.antt =====
-- hpe/volume.py and the JSON objects that volume_manager.py keeps in etcd. A key that an old record
-- may lack is an `Option`, and `none` is a missing key; where a missing key and a null are told
-- apart, the source tests it with `in`, and the field says so. `json.dumps` and `json.loads` are
-- inverse, so a record stands for its JSON text.
use python_hpedockerplugin.Prelude.{
  ℕ, String, Bool, false, not, Option, none, some, List, [], str_eq,
}

-- The value of `flash_cache`: a text from the request, or a boolean from the array.
pub data Flash : Type 0 where
  flag : Bool → Flash
  text : String → Flash

-- Python's truth value of `vol['flash_cache']`.
abbrev pub flash_truth : Option Flash → Bool
flash_truth none = false
flash_truth (some (flag b)) = b
flash_truth (some (text t)) = not (str_eq t "")

-- `vol['rcg_info']`: the names of the remote copy group, or the text that the lock wrapper returns
-- in their place when the group's lock is not acquired.
pub data RcgInfo : Type 0 where
  rcg_info : (local_rcg_name remote_rcg_name : String) → RcgInfo
  lock_failure_text : RcgInfo

-- What `initialize_connection` returns: the driver type and the target data for OS Brick.
pub record ConnectionInfo : Type 0 where
  pub driver_volume_type : String
  pub target : String

pub record PathInfo : Type 0 where
  pub name : String
  pub path : String
  pub device_path : String
  pub connection_info : ConnectionInfo
  pub mount_dir : String
  pub remote_connection_info : Option ConnectionInfo

pub record SnapSchedule : Type 0 where
  pub schedule_name : String
  pub snap_name_prefix : Option String
  pub sched_frequency : Option String
  pub sched_snap_exp_hrs : Option ℕ
  pub sched_snap_ret_hrs : Option ℕ

pub record Snapshot : Type 0 where
  pub name : String
  pub id : String
  pub parent_name : String
  pub parent_id : String
  pub fs_mode : Option String
  pub fs_owner : Option String
  pub expiration_hours : Option ℕ
  pub retention_hours : Option ℕ
  pub snap_schedule : Option SnapSchedule

pub record Volume : Type 0 where
  pub id : String
  pub name : String
  pub three_par_vol_name : String
  pub size : ℕ
  pub display_name : String
  pub provisioning : String
  pub flash_cache : Option Flash
  pub qos_name : Option String
  pub compression : Option String
  pub snapshots : Option (List Snapshot)
  pub mount_conflict_delay : Option ℕ
  pub is_snap : Option Bool
  pub backend : String
  pub snap_metadata : Option Snapshot
  -- a missing key is `none`, a null is `some none`
  pub cpg : Option (Option String)
  pub snap_cpg : Option (Option String)
  pub has_schedule : Option Bool
  pub rcg : Option RcgInfo
  pub fs_owner : Option String
  pub fs_mode : Option String
  pub options : Option (List (String × String))
  -- the mount ids of each node that has the volume mounted
  pub node_mount_info : Option (List (String × List String))
  -- a missing key is `none`, a null is `some none`
  pub path_info : Option (Option PathInfo)
  pub old_path_info : Option (List (String × Option PathInfo))

abbrev pub default_mount_conflict_delay : ℕ
default_mount_conflict_delay = 30

abbrev pub default_mount_volume : String
default_mount_volume = "True"

-- `get_path_info_from_vol`
abbrev pub stored_path_info : Volume → Option PathInfo
stored_path_info vol = elim vol.path_info [ none ↦ none | some info ↦ info ]

-- A name's `uuid4` and 3PAR name are made by the caller.
pub record Spec : Type 0 where
  pub display_name : String
  pub size : ℕ
  pub prov : String
  pub flash_cache : Option Flash
  pub compression_val : Option String
  pub qos : Option String
  pub mount_conflict_delay : ℕ
  pub is_snap : Bool
  pub cpg : Option String
  pub snap_cpg : Option String
  pub has_schedule : Bool
  pub current_backend : String

-- `three_par_name` is `utils.get_3par_name`.
unfoldable pub createvol : (three_par_name : String → Bool → String) → String → Spec → Volume
createvol three_par_name uuid spec = record {
  id = uuid;
  name = uuid;
  three_par_vol_name = three_par_name uuid spec.is_snap;
  size = spec.size;
  display_name = spec.display_name;
  provisioning = spec.prov;
  flash_cache = spec.flash_cache;
  qos_name = spec.qos;
  compression = spec.compression_val;
  snapshots = some [];
  mount_conflict_delay = some spec.mount_conflict_delay;
  is_snap = some spec.is_snap;
  backend = spec.current_backend;
  snap_metadata = none;
  cpg = some spec.cpg;
  snap_cpg = some spec.snap_cpg;
  has_schedule = some spec.has_schedule;
  rcg = none;
  fs_owner = none;
  fs_mode = none;
  options = none;
  node_mount_info = none;
  path_info = some none;
  old_path_info = none;
}
