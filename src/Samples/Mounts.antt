-- ===== src/Samples/Mounts.antt =====
-- Runs of the mount and unmount operations of volume_manager.py in small worlds, and the theorems at
-- these inputs.
use python_hpedockerplugin.Prelude.{
  ◌≡◌, ◌≢◌, ◌≤◌, ◌+◌, ◌↔◌, ◌⊎◌, refl, String, true, false, none, some, [], ◌∷◌, contains, lookup,
  insert, remove_key,
}
use python_hpedockerplugin.Volume.{PathInfo, Volume}
use python_hpedockerplugin.Effect.{
  primary, secondary, foreign, mount_exception, ok, err, Rcg, ◌>>=◌, try_else, call, ask,
  reset_undo, append_undo, start, Store,
}
use python_hpedockerplugin.Effect.Tracked.{RolledBack}
use python_hpedockerplugin.Effect.Undo.{ask_undo, rollback}
use python_hpedockerplugin.Etcd.{find_byname, get_vol_by_id, update_vol}
use python_hpedockerplugin.Manager.{mount_failed, failure}
use python_hpedockerplugin.Manager.Undone.{Undone}
use python_hpedockerplugin.Replication.{primary_role, secondary_role, target_array}
use python_hpedockerplugin.Replication.Roles.{HasRole, IsMissing, target_array_iff}
use python_hpedockerplugin.Mount.{MountInfo, add_mount_id, wait_for_graceful_vol_unmount}
use python_hpedockerplugin.Mount.Wait.{sleeps, wait_for_graceful_vol_unmount-sleeps}
use python_hpedockerplugin.Mount.Connect.{mount_arrays}
use python_hpedockerplugin.Mount.Connect.Undo.{mount_arrays-Undone}
use python_hpedockerplugin.Mount.Fencing.{OldPaths, replace_old_path}
use python_hpedockerplugin.Mount.Attach.{MountArgs, attach}
use python_hpedockerplugin.Mount.Attach.Undo.{attach-RolledBack}
use python_hpedockerplugin.Unmount.{remove_mount_id, take_old_path}
use python_hpedockerplugin.Unmount.Ids.{IsUnique, remove_mount_id-add_mount_id}
use python_hpedockerplugin.Unmount.Old.{take_old_path-replace_old_path}
use python_hpedockerplugin.Samples.{working, unmountable, disconnected, disk, config}
use python_hpedockerplugin.Mount.Session.{synchronized_mount_volume}
use python_hpedockerplugin.Mount.Shared.{with_id, OnlyLooks, synchronized_mount_volume-OnlyLooks}
use python_hpedockerplugin.Mount.{not_owned}
use python_hpedockerplugin.Mount.Fencing.{fence}
use python_hpedockerplugin.Mount.Session.{by_ownership}
use python_hpedockerplugin.Mount.Fencing.First.{AfterFence, by_ownership-AfterFence}

abbrev args : MountArgs
args = record { volname = "disk"; vol_mount = "True"; mount_id = "m1" }

run_mount : Unit {0}
unfolding ◌>>=◌ try_else call ask reset_undo append_undo ask_undo rollback get_vol_by_id update_vol
    attach mount_arrays
run_mount = tt

not_mounted :
    (attach unmountable config args disk false [] (reset_undo (start [])).1).0
    ≡ ok (failure (mount_failed (foreign "mount failed")))
unfolding run_mount
not_mounted = refl

attach-RolledBack_example :
    RolledBack unmountable
      (attach unmountable config args disk false [] (reset_undo (start [])).1).1.calls
attach-RolledBack_example =
    attach-RolledBack unmountable config args disk false [] (start [])
      (mount_failed (foreign "mount failed")) not_mounted

not_connected :
    (mount_arrays disconnected config disk false (reset_undo (start [])).1).0
    ≡ err (mount_exception "OS Brick connect volume failed")
unfolding run_mount
not_connected = refl

mount_arrays-Undone_example :
    Undone disconnected
      (λ etcd. etcd ≡ [])
      (mount_arrays disconnected config disk false (reset_undo (start [])).1).1
mount_arrays-Undone_example =
    mount_arrays-Undone disconnected config disk false (start [])
      (mount_exception "OS Brick connect volume failed") not_connected

abbrev failed_over : Rcg
failed_over = record { role = 1; role_reversed = true; remote_group_name = "group" }

target_array_iff_example :
    ((target_array "group" none (some failed_over) ≡ ok primary) ↔ (
      HasRole primary_role false none
      × (IsMissing (some failed_over) ⊎ HasRole secondary_role false (some failed_over))))
    × ((target_array "group" none (some failed_over) ≡ ok secondary) ↔ (
        HasRole primary_role true (some failed_over)
        × (IsMissing none ⊎ (HasRole primary_role false none ⊎ HasRole secondary_role true none))))
target_array_iff_example = target_array_iff "group" none (some failed_over)

wait_for_graceful_vol_unmount-sleeps_example :
    sleeps (wait_for_graceful_vol_unmount working disk (start (("d1", disk) ∷ []))).1.calls
    ≤ 2 + sleeps []
wait_for_graceful_vol_unmount-sleeps_example =
    wait_for_graceful_vol_unmount-sleeps working disk 2 (start (("d1", disk) ∷ [])) refl

abbrev on_node1 : MountInfo
on_node1 = ("node1", "m1" ∷ "m2" ∷ []) ∷ []

abbrev shared : Volume
shared = record disk { node_mount_info = some on_node1 }

both_here : lookup "node1" on_node1 ≡ some ("m1" ∷ "m2" ∷ [])
unfolding lookup
both_here = refl

two_ids-IsUnique : IsUnique ("m1" ∷ "m2" ∷ [])
unfolding contains
two_ids-IsUnique = (refl, (refl, tt))

remove_mount_id-add_mount_id_example :
    (remove_mount_id "m3" (add_mount_id "m3" ("m1" ∷ "m2" ∷ []))
      ≡ remove_mount_id "m3" ("m1" ∷ "m2" ∷ []))
    × ((contains "m3" (remove_mount_id "m3" (add_mount_id "m3" ("m1" ∷ "m2" ∷ []))) ≡ false)
        × IsUnique (add_mount_id "m3" ("m1" ∷ "m2" ∷ [])))
remove_mount_id-add_mount_id_example =
    remove_mount_id-add_mount_id "m3" ("m1" ∷ "m2" ∷ []) two_ids-IsUnique

abbrev old : OldPaths
old = ("node2", none) ∷ ("node1", none) ∷ []

take_old_path-replace_old_path_example :
    (take_old_path "node2" (replace_old_path "node2" none old)
      ≡ some (none, remove_key "node2" old))
    × ((take_old_path "node2" (remove_key "node2" old) ≡ none)
        × ((other : String)
            → "node2" ≢ other
            → lookup other (replace_old_path "node2" none old) ≡ lookup other old))
take_old_path-replace_old_path_example = take_old_path-replace_old_path "node2" none old

abbrev mounted_path : PathInfo
mounted_path = record {
  name = "disk";
  path = "/dev/dm-1";
  device_path = "/dev/mapper/d1";
  connection_info = record { driver_volume_type = "iscsi"; target = "d1" };
  mount_dir = "/mnt/d1";
  remote_connection_info = none;
}

abbrev third : MountArgs
third = record args { mount_id = "m3" }

abbrev mounted_here : Volume
mounted_here = record shared { path_info = some (some mounted_path) }

mounted_here_found : find_byname "disk" (("d1", mounted_here) ∷ []) ≡ some mounted_here
unfolding find_byname
mounted_here_found = refl

abbrev third_id : Volume
third_id = with_id "node1" third mounted_here on_node1 ("m1" ∷ "m2" ∷ [])

mounted_here_stored : lookup "d1" (("d1", mounted_here) ∷ []) ≡ some mounted_here
unfolding lookup
mounted_here_stored = refl

abbrev store_here : Store
store_here = ("d1", mounted_here) ∷ []

synchronized_mount_volume-OnlyLooks_example :
    let final = (synchronized_mount_volume working config third (start store_here)).1 in
    OnlyLooks (λ v. (contains "m3" ("m1" ∷ "m2" ∷ []) ≡ false) × (v ≡ third_id)) final.calls
    × ((final.etcd ≡ store_here)
        ⊎ ((contains "m3" ("m1" ∷ "m2" ∷ []) ≡ false)
            × (final.etcd ≡ insert "d1" third_id store_here)))
synchronized_mount_volume-OnlyLooks_example =
    synchronized_mount_volume-OnlyLooks working config third mounted_here
      (("d1", mounted_here) ∷ []) on_node1 ("m1" ∷ "m2" ∷ []) mounted_path 2 mounted_here_found
      mounted_here_stored refl both_here refl refl refl (λ h. refl)

abbrev on_node2 : MountInfo
on_node2 = ("node2", "m9" ∷ []) ∷ []

abbrev elsewhere : Volume
elsewhere = record disk { node_mount_info = some on_node2; path_info = some (some mounted_path) }

abbrev elsewhere_store : Store
elsewhere_store = ("d1", elsewhere) ∷ []

by_ownership-AfterFence_example :
    let base = start elsewhere_store in
    AfterFence working config args elsewhere false on_node2 base
      (fence working config elsewhere false on_node2 base)
      (by_ownership working config args elsewhere false on_node2 not_owned base)
by_ownership-AfterFence_example =
    by_ownership-AfterFence working config args elsewhere false on_node2 (start elsewhere_store)
