-- ===== src/Samples/Requests.antt =====
-- Runs of the operations of volume_manager.py in small worlds, and the theorems at these inputs.
use python_hpedockerplugin.Prelude.{◌≡◌, refl, none, some, [], ◌∷◌, true, false}
use python_hpedockerplugin.Volume.{createvol, Volume}
use python_hpedockerplugin.Effect.{
  ok, save_failed, ◌>>=◌, try_else, call, ask, reset_undo, append_undo, start,
}
use python_hpedockerplugin.Effect.Undo.{ask_undo, rollback}
use python_hpedockerplugin.Names.{get_3par_name, get_3par_vol_name}
use python_hpedockerplugin.Etcd.{delete_vol, find_byname, get_vol_byname, save_vol}
use python_hpedockerplugin.Locks.{synchronized}
use python_hpedockerplugin.Manager.{
  raised, failure, success, rollback_and_fail, clone_backend_volume, create_backend_volume,
  apply_volume_specs, find_rcg, create_group, add_volume_to_rcg,
}
use python_hpedockerplugin.Manager.Undone.{Released}
use python_hpedockerplugin.Manager.Create.{create_volume}
use python_hpedockerplugin.Manager.Create.Undo.{create_volume-Released}
use python_hpedockerplugin.Samples.{read_only, request, disk, working}
use python_hpedockerplugin.Manager.Undone.{Undone}
use python_hpedockerplugin.Manager.Clone.{CloneArgs, clone_to}
use python_hpedockerplugin.Manager.Clone.Undo.{clone_to-Released}
use python_hpedockerplugin.Manager.Snapshot.{SnapshotArgs, take_snapshot, snapshot_entry}
use python_hpedockerplugin.Manager.Snapshot.Undo.{OthersKept, take_snapshot-Undone}
use python_hpedockerplugin.Manager.Remove.{remove_found, remove_volume}
use python_hpedockerplugin.Manager.Remove.Guards.{
  OnlyReads, IsGone, remove_volume-OnlyReads, remove_found_success,
}
use python_hpedockerplugin.Prelude.{String, ◌++◌, All, str_eq}
use python_hpedockerplugin.Effect.{
  lock_volume, unlock_volume, lock_failed, delete_volume, delete_vvset, State,
}
use python_hpedockerplugin.Effect.Undo.{rollback-calls}
use python_hpedockerplugin.Locks.Release.{synchronized-release}
use python_hpedockerplugin.Etcd.Find.{IsFound, find_byname_lem}

run : Unit {0}
unfolding createvol ◌>>=◌ try_else call ask reset_undo append_undo ask_undo rollback get_3par_name
    get_3par_vol_name find_byname get_vol_byname save_vol synchronized rollback_and_fail
    create_backend_volume apply_volume_specs find_rcg create_group add_volume_to_rcg create_volume
    clone_to take_snapshot snapshot_entry remove_found
run = tt

create_volume_unsaved :
    (create_volume read_only request (start [])).0 ≡ ok (failure (raised (save_failed "v1")))
unfolding run
create_volume_unsaved = refl

create_volume-Released_example :
    Released read_only (λ e. e ≡ []) "v1" (create_volume read_only request (start [])).1
create_volume-Released_example =
    create_volume-Released read_only request [] (raised (save_failed "v1")) create_volume_unsaved

abbrev clone_request : CloneArgs
clone_request = record {
  src_vol_name = "disk";
  clone_name = "copy";
  size = none;
  cpg = none;
  snap_cpg = none;
  current_backend = "DEFAULT";
  clone_opts = none;
}

clone_unsaved :
    (clone_to read_only clone_request disk 10 none none (start [])).0
    ≡ ok (failure (raised (save_failed "copy")))
unfolding run clone_backend_volume
clone_unsaved = refl

clone_to-Released_example :
    Released read_only
      (λ e. e ≡ [])
      "copy"
      (clone_to read_only clone_request disk 10 none none (start [])).1
clone_to-Released_example =
    clone_to-Released read_only clone_request disk 10 none none [] (raised (save_failed "copy"))
      clone_unsaved

abbrev snapshot_request : SnapshotArgs
snapshot_request = record {
  src_vol_name = "disk";
  sched_name = "";
  snapshot_name = "snap";
  snap_prefix = none;
  expiration_hrs = none;
  exphrs = none;
  retention_hrs = none;
  rethrs = none;
  mount_conflict_delay = 30;
  has_schedule = false;
  sched_frequency = none;
  current_backend = "DEFAULT";
}

abbrev snap : Volume
snap = record disk { id = "s1"; name = "s1"; display_name = "snap"; is_snap = some true }

snapshot_unsaved :
    (take_snapshot read_only snapshot_request disk snap (start [])).0
    ≡ ok (failure (raised (save_failed "snap")))
unfolding run
snapshot_unsaved = refl

take_snapshot-Undone_example :
    Undone read_only
      (OthersKept "s1" [])
      (take_snapshot read_only snapshot_request disk snap (start [])).1
take_snapshot-Undone_example =
    take_snapshot-Undone read_only snapshot_request disk snap [] (raised (save_failed "snap"))
      snapshot_unsaved

abbrev parent : Volume
parent = record disk {
  snapshots = some (
      record {
        name = "snap";
        id = "s1";
        parent_name = "disk";
        parent_id = "d1";
        fs_mode = none;
        fs_owner = none;
        expiration_hours = none;
        retention_hours = none;
        snap_schedule = none;
      }
      ∷ []);
}

parent_found : find_byname "disk" (("d1", parent) ∷ []) ≡ some parent
unfolding find_byname
parent_found = refl

remove_volume-OnlyReads_example :
    OnlyReads (remove_volume working "disk" (start (("d1", parent) ∷ []))).1.calls
    × ((remove_volume working "disk" (start (("d1", parent) ∷ []))).1.etcd ≡ (("d1", parent) ∷ []))
remove_volume-OnlyReads_example =
    remove_volume-OnlyReads working "disk" parent (("d1", parent) ∷ []) parent_found refl refl

removed : (remove_found working "disk" disk none (start (("d1", disk) ∷ []))).0 ≡ ok success
unfolding run delete_vol
removed = refl

remove_found_success_example :
    IsGone disk (remove_found working "disk" disk none (start (("d1", disk) ∷ []))).1
remove_found_success_example =
    remove_found_success working "disk" disk none (start (("d1", disk) ∷ [])) (λ h key e. cc)
      removed

synchronized-release_example :
    (working.outcome (lock_volume "disk") [] ≡ none
      → (synchronized working
          (lock_volume "disk")
          (unlock_volume "disk")
          success
          (rollback_and_fail working (save_failed "disk"))
          (start [])).1.calls
        ≡ unlock_volume "disk"
          ∷ (rollback_and_fail working
              (save_failed "disk")
              (call working (lock_volume "disk") (start [])).1).1.calls)
    × ((name : String)
        → working.outcome (lock_volume "disk") [] ≡ some (lock_failed name)
        → synchronized working
            (lock_volume "disk")
            (unlock_volume "disk")
            success
            (rollback_and_fail working (save_failed "disk"))
            (start [])
          ≡ (ok success, record (start []) { calls = lock_volume "disk" ∷ [] }))
synchronized-release_example =
    synchronized-release working (lock_volume "disk") (unlock_volume "disk") success
      (rollback_and_fail working (save_failed "disk")) (start [])

abbrev two_steps : State
two_steps = record (start []) { undo_steps = delete_volume "d1" false ∷ delete_vvset "d1" ∷ [] }

rollback-calls_example :
    ((rollback read_only two_steps).1.calls ≡ two_steps.undo_steps ++ two_steps.calls)
    × ((rollback read_only two_steps).0 ≡ ok tt)
rollback-calls_example = rollback-calls read_only two_steps

find_byname_lem_example :
    ((vol : Volume)
      → find_byname "disk" (("d1", disk) ∷ []) ≡ some vol
      → IsFound "disk" (("d1", disk) ∷ []) vol)
    × (find_byname "disk" (("d1", disk) ∷ []) ≡ none
        → All
            (λ (entry : String × Volume). str_eq entry.1.display_name "disk" ≡ false)
            (("d1", disk) ∷ []))
find_byname_lem_example = find_byname_lem "disk" (("d1", disk) ∷ [])
