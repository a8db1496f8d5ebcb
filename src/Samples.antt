-- ===== src/Samples.antt =====
-- Small worlds, for the tests and the examples.
pub mod Requests
pub mod Mounts
pub mod Checks
pub mod Requested
pub mod Nodes
pub mod Files
use python_hpedockerplugin.Prelude.{ℕ, String, Bool, true, false, Option, none, some, List, [], ◌∷◌}
use python_hpedockerplugin.Volume.{Volume, ConnectionInfo}
use python_hpedockerplugin.Effect.{
  Call, etcd_write, mount_dir, connect_volume, disconnect_volume, History, Error, foreign, Env,
  Store,
}
use python_hpedockerplugin.Manager.Create.{CreateArgs}
use python_hpedockerplugin.Replication.{Config}

-- A world that answers a given way to each call.
abbrev pub world : (Call → History → Option Error) → Env
world outcome = record {
  outcome = outcome;
  text = λ c h. "answer";
  flag = λ c h. true;
  texts = λ c h. [];
  rcg = λ array name h. record { role = 1; role_reversed = false; remote_group_name = "remote" };
  connection = λ array id h. record { driver_volume_type = "iscsi"; target = id };
  uuid4 = λ h. "uuid";
  encode = λ t. t;
  realpath = λ path h. path;
  exists = λ path h. true;
  others = λ h store. store;
}

abbrev pub working : Env
working = world (λ c h. none)

abbrev fails_to_save : Call → Option Error
fails_to_save (etcd_write vol) = some (foreign "etcd is down")
fails_to_save c = none

abbrev fails_to_disconnect_or_mount : Call → Option Error
fails_to_disconnect_or_mount (mount_dir src dir) = some (foreign "mount failed")
fails_to_disconnect_or_mount (disconnect_volume info) = some (foreign "device is busy")
fails_to_disconnect_or_mount c = none

-- A directory cannot be mounted, and a device cannot be disconnected.
abbrev pub unmountable : Env
unmountable = world (λ c h. fails_to_disconnect_or_mount c)

abbrev fails_to_connect : Call → Option Error
fails_to_connect (connect_volume info) = some (foreign "no path to the array")
fails_to_connect c = none

abbrev pub disconnected : Env
disconnected = world (λ c h. fails_to_connect c)

-- Saving a record fails, all else works.
abbrev pub read_only : Env
read_only = world (λ c h. fails_to_save c)

abbrev pub request : CreateArgs
request = record {
  volname = "v1";
  vol_size = 10;
  vol_prov = "thin";
  vol_flash = none;
  compression_val = none;
  vol_qos = some "gold";
  fs_owner = none;
  fs_mode = none;
  mount_conflict_delay = 30;
  cpg = none;
  snap_cpg = none;
  current_backend = "DEFAULT";
  rcg_name = some "group";
}

abbrev pub disk : Volume
disk = record {
  id = "d1";
  name = "d1";
  three_par_vol_name = "dcv-d1";
  size = 10;
  display_name = "disk";
  provisioning = "thin";
  flash_cache = none;
  qos_name = none;
  compression = none;
  snapshots = some [];
  mount_conflict_delay = some 2;
  is_snap = some false;
  backend = "DEFAULT";
  snap_metadata = none;
  cpg = some none;
  snap_cpg = some none;
  has_schedule = some false;
  rcg = none;
  fs_owner = none;
  fs_mode = none;
  options = none;
  node_mount_info = none;
  path_info = some none;
  old_path_info = none;
}

abbrev pub config : Config
config = record { node_id = "node1"; replication = true; quorum_witness = false }
