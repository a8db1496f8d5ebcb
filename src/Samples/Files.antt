-- ===== src/Samples/Files.antt =====
-- The theorems on file shares, in a small world in which every call succeeds or a few fail.
use python_hpedockerplugin.Prelude.{
  ℕ, ◌≡◌, refl, String, Bool, true, false, Option, none, some, List, [], ◌∷◌, contains, lookup,
  insert, remove_key, is_empty, if◌then◌else◌,
}
use python_hpedockerplugin.IpPool.{
  BackendMetadata, remove_first, remove_if_present, available as free_addresses,
}
use python_hpedockerplugin.Python.{int, signed, read_digits, int_of_codes}
use python_hpedockerplugin.Request.Share.{split_at}
use python_hpedockerplugin.File
use python_hpedockerplugin.File.Mount
use python_hpedockerplugin.File.Mount.Records.{IsElsewhere, IsHeld, unmount_share-mount_share}
use python_hpedockerplugin.File.Defaults.{
  remove_as_default_fpg, remove_fpg_from_default_fpgs, add_default_fpg, with_defaults, fpgs_of,
  defaults_of, changed,
}
use python_hpedockerplugin.File.Defaults.Undo.{
  HasNoEmpty, remove_as_default_fpg-add_default_fpg, remove_fpg_from_default_fpgs-add_default_fpg,
}
use python_hpedockerplugin.File.Commands
use python_hpedockerplugin.File.Commands.Shares.{HasEnded, execute_create_share-HasEnded}
use python_hpedockerplugin.File.Place
use python_hpedockerplugin.File.Create
use python_hpedockerplugin.File.Place.Capacity.{HasRoom, candidate-HasRoom}
use python_hpedockerplugin.File.Delete
use python_hpedockerplugin.File.Delete.Owned.{IsUntouched, continue_delete-IsUntouched}

-- The owner is known to the array, and no group has a share left.
abbrev flag_for : File.Call → Bool
flag_for (File.usr_check owner) = true
flag_for c = false

abbrev world : (File.Call → File.History → Option File.Error) → File.Env
world outcome = record {
  outcome = outcome;
  text = λ c h. "cpg1";
  number = λ c h. 16;
  flag = λ c h. flag_for c;
  numbers = λ c h. 1024 ∷ [];
  texts = λ c h. [];
  vfs_info = λ fpg h. record { name = "vfs1"; ip = "10.0.0.1"; netmask = "255.255.0.0" };
}

abbrev working : File.Env
working = world (λ c h. none)

abbrev fails_on_quota : File.Call → Option File.Error
fails_on_quota (File.update_quotas name size fpg vfs) = some File.share_backend
fails_on_quota c = none

-- No quota can be set.
abbrev without_quotas : File.Env
without_quotas = world (λ c h. fails_on_quota c)

abbrev share : File.Share
share = record {
  name = "share1";
  id = some "s1";
  backend = "DEFAULT";
  cpg = "cpg1";
  fpg = some "fpg1";
  vfs = some "vfs1";
  size = 2048;
  readonly = false;
  nfs_options = none;
  comment = none;
  client_ips = [];
  fs_mode = some "755";
  fs_owner = some "1000:1000";
  status = some File.available;
  quota_id = some "q1";
  vfs_ips = ("10.0.0.1", "255.255.0.0") ∷ [];
  path_info = none;
}

abbrev metadata : BackendMetadata
metadata = record {
  ips_in_use = "10.0.0.1" ∷ [];
  ips_locked_for_use = [];
  counter = some 1;
  default_fpgs = some (("cpg1", "fpg1" ∷ []) ∷ []);
}

abbrev etcd : List (String × File.Share) → File.State
etcd shares = record {
  backend_metadata = some metadata;
  fpgs = [];
  shares = shares;
  calls = [];
  undo_cmds = [];
  progress = record { id = none; fpg = none; vfs = none; vfs_ips = [] };
}

abbrev host : Mount.Host
host = record { node_id = "node1"; my_ip = "10.0.1.1"; mount_prefix = "/opt/hpe/data/" }

abbrev mount_dir : String
mount_dir = "/opt/hpe/data/share1"

abbrev share_path : String
share_path = "10.0.0.1:/fpg1/vfs1/share1"

abbrev held : File.State
held = etcd (("share1", Mount.attached host share "m1") ∷ [])

elsewhere : IsElsewhere host share
unfolding lookup contains
elsewhere = record { not_here = refl; not_a_client = refl; stored = refl }

run : Unit {0}
unfolding File.modify File.pure File.raise File.gets File.or_raise File.◌>>=◌ File.try_except
    File.find_fpg File.drop_fpg File.call File.ask File.get_backend_metadata File.get_fpg_metadata
    File.get_share File.with_lock lookup insert contains
run = tt

was_mounted :
    (Mount.mount_share working host share "m1" (etcd (("share1", share) ∷ []))).0
    ≡ File.ok (Mount.mounted mount_dir share_path)
unfolding run Mount.owner_of Mount.read_owner Mount.get_share_path Mount.give_up Mount.apply_mode
    Mount.apply_permissions Mount.permissions_if Mount.save_mounted Mount.mount_here
    Mount.first_on_node Mount.mount_available Mount.mount_in_state Mount.mount_share int signed
    read_digits int_of_codes split_at
was_mounted = refl

was_unmounted :
    (Mount.unmount_share working host (Mount.attached host share "m1") "m1" held).0
    ≡ File.ok Mount.unmounted
unfolding run Mount.detach Mount.unmount_share remove_first
was_unmounted = refl

unmount_share-mount_share_example :
    IsHeld
      (Mount.attached host share "m1")
      (Mount.mount_share working host share "m1" (etcd (("share1", share) ∷ []))).1
    × IsHeld share (Mount.unmount_share working host (Mount.attached host share "m1") "m1" held).1
unmount_share-mount_share_example =
    unmount_share-mount_share working host share "m1" mount_dir share_path
      (etcd (("share1", share) ∷ [])) held elsewhere was_mounted was_unmounted

remove_as_default_fpg-add_default_fpg_example :
    remove_as_default_fpg "cpg2" "fpg2" (add_default_fpg "cpg2" "fpg2" metadata)
    ≡ File.ok (
        changed (
          with_defaults metadata (
            if is_empty (fpgs_of "cpg2" (defaults_of metadata))
            then none
            else some (defaults_of metadata))))
unfolding lookup contains
remove_as_default_fpg-add_default_fpg_example =
    remove_as_default_fpg-add_default_fpg "cpg2" "fpg2" metadata refl

none_empty : HasNoEmpty "cpg2" (defaults_of metadata)
unfolding lookup
none_empty e = cc e

remove_fpg_from_default_fpgs-add_default_fpg_example :
    remove_fpg_from_default_fpgs "cpg2" "fpg2" (add_default_fpg "cpg2" "fpg2" metadata)
    ≡ File.ok (with_defaults metadata (some (defaults_of metadata)))
unfolding lookup contains
remove_fpg_from_default_fpgs-add_default_fpg_example =
    remove_fpg_from_default_fpgs-add_default_fpg "cpg2" "fpg2" metadata refl none_empty

abbrev config : Commands.Config
config = record {
  backend = "DEFAULT";
  default_fpg_size = none;
  server_ip_pool = ("255.255.0.0", "10.0.0.1" ∷ "10.0.0.2" ∷ []) ∷ [];
}

abbrev first : String → List String → String
first ip rest = ip

abbrev fpg_name : ℕ → String
fpg_name n = "DockerFpg"

abbrev vfs_name : ℕ → String
vfs_name n = "DockerVfs"

-- The default group has room; its quota cannot be set, and a new group's cannot either. The creation
-- returns all the same.
failed_creation :
    (Create.create_new without_quotas config first share fpg_name vfs_name 1 Place.on_default
      (etcd [])).0
    ≡ File.ok tt
unfolding run Create.create_new Create.create_share_on_fpg Place.find_fpg_for Place.default_names
    Place.try_defaults Place.candidate Place.server_if Place.try_candidate Place.attempt
    Place.place_at Place.create_share_and_quota Commands.execute_create_share Commands.save_created
    Commands.execute_set_quota Commands.on_set_quota_error Place.default_failed Place.unexecute_all
    Commands.add_to_default_fpg Commands.create_metadata Commands.execute_claim
    Commands.execute_create_fpg Commands.execute_create_vfs Commands.execute_mark_in_use
    Commands.find_available Commands.ignoring Commands.of_result Commands.on_add_default_error
    Commands.on_claim_error Commands.on_create_fpg_error Commands.on_create_vfs_error
    Commands.save_removal Commands.undo_created Commands.unexecute Commands.unexecute_claim
    Commands.unexecute_create_fpg Commands.unexecute_create_share Commands.unexecute_set_quota
    Commands.unset_default Place.check_space Place.clear_undo Create.create_on_new
    Create.make_default Create.make_fpg Create.mark_failed Create.new_fpg Create.next_number
    Create.on_new_if Place.skip_missing Place.unexecute_in remove_as_default_fpg free_addresses
    remove_first remove_if_present remove_key
failed_creation = refl

abbrev fails_to_save : File.Call → File.History → Option File.Error
fails_to_save (File.save_share s) h = some File.save_failed
fails_to_save c h = none

execute_create_share-HasEnded_example :
    HasEnded
      (world fails_to_save)
      share
      (etcd [])
      (Commands.execute_create_share (world fails_to_save) config share (etcd []))
execute_create_share-HasEnded_example =
    execute_create_share-HasEnded (world fails_to_save) config share (etcd [])

chosen :
    (Place.candidate working config share "fpg1" (etcd [])).0
    ≡ File.ok (some (Place.info_of working config share "fpg1" (working.vfs_info "fpg1" [])))
unfolding run Place.candidate Place.server_if
chosen = refl

candidate-HasRoom_example :
    HasRoom working config share "fpg1"
      (Place.info_of working config share "fpg1" (working.vfs_info "fpg1" []))
candidate-HasRoom_example =
    candidate-HasRoom working config share "fpg1" (etcd [])
      (Place.info_of working config share "fpg1" (working.vfs_info "fpg1" [])) chosen

continue_delete-IsUntouched_example :
    IsUntouched "cpg1" "fpg1"
      (some metadata)
      (Delete.continue_delete working config host share "fpg1" (etcd [])).1
unfolding File.find_fpg
continue_delete-IsUntouched_example =
    continue_delete-IsUntouched working config host share "fpg1" (etcd []) refl refl
