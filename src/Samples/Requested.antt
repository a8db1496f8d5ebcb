-- ===== src/Samples/Requested.antt =====
-- The theorems on the handlers of hpe_storage_api.py and on share requests, at concrete inputs.
use python_hpedockerplugin.Prelude.{
  ◌≡◌, ◌↔◌, refl, String, true, false, none, some, List, [], ◌∷◌, contains, lookup,
}
use python_hpedockerplugin.Python.{pos, int, read_digits, signed, int_of_codes, lower_is}
use python_hpedockerplugin.Request.{
  Opts, Contents, valid, keys, opts_of, check, validate_name, validate_opts,
}
use python_hpedockerplugin.Request.Volume.{validate_request, validate_mutually_exclusive_ops}
use python_hpedockerplugin.Request.Share.{split_at, validate_fs_mode, validate_fs_owner}
use python_hpedockerplugin.Request.Share.Params.{
  FileConfig, ShareArgs, create_share_req_params, get_int_option, readonly_of, check_if_given,
  or_invalid,
}
use python_hpedockerplugin.Request.Share.Params.{◌>>=◌ as ◌>>=valid◌}
use python_hpedockerplugin.Request.Share.Params.Accepted.{
  IsCreatable, create_share_req_params-IsCreatable,
}
use python_hpedockerplugin.Api.{
  BackendConfig, go, SnapshotRequest, create_snapshot, CreateRequest, create_volume, ◌>>=◌, stop_if,
  or_stop,
}
use python_hpedockerplugin.Api.Replication.{
  validate_rcg_params, check_group, check_device, check_mode, check_period,
}
use python_hpedockerplugin.Api.Replication.Period.{HasReplicable, validate_rcg_params_iff}
use python_hpedockerplugin.Api.Snapshot.{
  volumedriver_create_snapshot, int_option, name_and_prefix, schedule_of, schedule_if_named,
}
use python_hpedockerplugin.Api.Snapshot.Schedule.{
  IsScheduled, volumedriver_create_snapshot-IsScheduled,
}
use python_hpedockerplugin.Api.Create.{
  volumedriver_create, create_block, check_request, create_with_opts, create_with, populate,
  create_regular, create_on_backend, check_keys, check_exclusive, check_backend, check_size,
  check_compression, check_flash, check_fs_owner, check_fs_mode, check_delay,
}
use python_hpedockerplugin.Api.Create.Sound.{IsSound, volumedriver_create-IsSound}
use python_hpedockerplugin.Api.Create.Validated.{validate_request-checks}

abbrev replicating : BackendConfig
replicating = record {
  replication_device = some (record {
    replication_mode = some "Streaming";
    quorum_witness_ip = none;
    sync_period = some "900";
  });
}

abbrev backends : List (String × BackendConfig)
backends = ("array1", replicating) ∷ []

validate_rcg_params_iff_example :
    (validate_rcg_params backends (some "group") "array1" ≡ go tt)
    ↔ HasReplicable (
        some (record {
          replication_mode = some "Streaming";
          quorum_witness_ip = none;
          sync_period = some "900";
        }))
unfolding lookup
validate_rcg_params_iff_example =
    validate_rcg_params_iff backends (some "group") "array1" replicating refl refl

abbrev snapshot_opts : Opts
snapshot_opts =
    ("virtualCopyOf", "disk")
    ∷ ("scheduleName", "daily")
    ∷ ("scheduleFrequency", "10 2 * * *")
    ∷ ("snapshotPrefix", "day")
    ∷ ("expHrs", "48")
    ∷ ("retHrs", "24")
    ∷ []

abbrev scheduled_snapshot : SnapshotRequest
scheduled_snapshot = record {
  src_vol_name = "disk";
  sched_name = some "daily";
  snapshot_name = "snap";
  snap_prefix = some "day";
  expiration_hrs = none;
  exphrs = some (pos 48);
  retention_hrs = none;
  rethrs = some (pos 24);
  mount_conflict_delay = pos 30;
  has_schedule = true;
  sched_frequency = some "10 2 * * *";
}

snapshot_asked :
    volumedriver_create_snapshot "now" "snap" snapshot_opts (pos 30)
    ≡ go (create_snapshot scheduled_snapshot)
unfolding volumedriver_create_snapshot int_option name_and_prefix schedule_of schedule_if_named
    ◌>>=◌ stop_if or_stop int read_digits signed int_of_codes lookup split_at
snapshot_asked = refl

volumedriver_create_snapshot-IsScheduled_example : IsScheduled snapshot_opts scheduled_snapshot
unfolding lookup
volumedriver_create_snapshot-IsScheduled_example =
    volumedriver_create_snapshot-IsScheduled "now" "snap" snapshot_opts (pos 30) scheduled_snapshot
      refl snapshot_asked

abbrev replicated_contents : Contents
replicated_contents = record {
  name = "disk1";
  opts = some (("size", "10") ∷ ("backend", "array1") ∷ ("replicationGroup", "group") ∷ []);
}

abbrev created : CreateRequest
created = record {
  name = "disk1";
  vol_size = pos 10;
  vol_prov = "thin";
  vol_flash = none;
  compression_val = none;
  vol_qos = none;
  fs_owner = none;
  fs_mode = none;
  mount_conflict_delay = pos 30;
  cpg = none;
  snap_cpg = none;
  current_backend = "array1";
  rcg_name = some "group";
}

volume_asked :
    volumedriver_create backends ("array1" ∷ []) "DEFAULT" "now" false true replicated_contents
    ≡ go (create_volume created)
unfolding volumedriver_create create_block check_request create_with_opts create_with populate
    create_regular create_on_backend check_keys check_exclusive check_backend check_size
    check_compression check_flash check_fs_owner check_fs_mode check_delay validate_rcg_params
    check_group check_device check_mode check_period ◌>>=◌ stop_if or_stop int read_digits signed
    int_of_codes lower_is validate_request validate_name validate_mutually_exclusive_ops
    validate_opts contains lookup
volume_asked = refl

volumedriver_create-IsSound_example :
    (false ≡ false)
    × ((true ≡ true) × IsSound backends ("array1" ∷ []) "DEFAULT" "now" replicated_contents created)
volumedriver_create-IsSound_example =
    volumedriver_create-IsSound backends ("array1" ∷ []) "DEFAULT" "now" false true
      replicated_contents created volume_asked

replicated_accepted : validate_request ("array1" ∷ []) replicated_contents ≡ valid tt
unfolding validate_request validate_name validate_mutually_exclusive_ops contains validate_opts
replicated_accepted = refl

validate_request-checks_example :
    (check_keys (keys (opts_of replicated_contents)) ≡ go tt)
    × (check_exclusive (opts_of replicated_contents) ≡ go tt)
validate_request-checks_example =
    validate_request-checks ("array1" ∷ []) replicated_contents refl replicated_accepted

abbrev file_config : FileConfig
file_config = record { hpe3par_cpg = "cpg1" ∷ []; hpe3par_default_fpg_size = 2 }

abbrev share_opts : Opts
share_opts =
    ("filePersona", "") ∷ ("fsMode", "0755") ∷ ("fsOwner", "1000:1000") ∷ ("size", "8") ∷ []

abbrev share_args : ShareArgs
share_args = record {
  backend = "DEFAULT";
  cpg = "cpg1";
  fpg = none;
  name = "share1";
  size = pos 8192;
  readonly = false;
  nfs_options = none;
  comment = none;
  fs_mode = some "0755";
  fs_owner = some "1000:1000";
}

share_asked :
    create_share_req_params (("DEFAULT", file_config) ∷ []) "DEFAULT" "share1" share_opts
    ≡ valid share_args
unfolding create_share_req_params get_int_option readonly_of check_if_given or_invalid check
    ◌>>=valid◌ validate_fs_mode validate_fs_owner int read_digits signed int_of_codes lookup
    split_at lower_is
share_asked = refl

create_share_req_params-IsCreatable_example :
    IsCreatable (("DEFAULT", file_config) ∷ []) share_opts share_args
create_share_req_params-IsCreatable_example =
    create_share_req_params-IsCreatable (("DEFAULT", file_config) ∷ []) "DEFAULT" "share1"
      share_opts share_args share_asked
