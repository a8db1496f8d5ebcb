-- ===== src/Mount/Shared.antt =====
-- One more mount of a volume that this node has mounted.
use python_hpedockerplugin.Prelude.{
  ℕ, String, ◌≡◌, ◌⊎◌, true, false, some, List, [], ◌∷◌, ◌++◌, contains, lookup, insert, arith,
}
use python_hpedockerplugin.Volume.{Volume, PathInfo}
use python_hpedockerplugin.Effect.{
  Call, lock_volume, unlock_volume, etcd_read, etcd_update, begin_undo, check_if_mounted,
  get_connector_properties, History, Env, Store, start, ◌>>=◌, call, ask, reset_undo,
}
use python_hpedockerplugin.Etcd.{
  find_byname, get_vol_byname, get_vol_by_id, or_not_found, update_vol,
}
use python_hpedockerplugin.Locks.{synchronized}
use python_hpedockerplugin.Replication.{Config}
use python_hpedockerplugin.Mount.{
  MountInfo, is_vol_mounted_on_this_node, add_mount_id, update_mount_id_list, get_success_response,
}
use python_hpedockerplugin.Mount.Attach.{MountArgs}
use python_hpedockerplugin.Mount.Session.{with_snap_flag, with_delay, synchronized_mount_volume}

-- The record of the volume with one more mount id for the node.
abbrev pub with_id : String → MountArgs → Volume → MountInfo → List String → Volume
with_id node_id args vol node_mount_info ids = record vol {
  node_mount_info = some (insert node_id (ids ++ args.mount_id ∷ []) node_mount_info);
}

-- The calls that only lock, read, look at the mounts, and write what is admitted over a record.
abbrev pub OnlyLooks : (Volume → Type 0) → List Call → Type 0
OnlyLooks Admitted [] = Unit
OnlyLooks Admitted (lock_volume name ∷ h) = OnlyLooks Admitted h
OnlyLooks Admitted (unlock_volume name ∷ h) = OnlyLooks Admitted h
OnlyLooks Admitted (etcd_read key ∷ h) = OnlyLooks Admitted h
OnlyLooks Admitted (etcd_update vol ∷ h) = Admitted vol × OnlyLooks Admitted h
OnlyLooks Admitted (begin_undo ∷ h) = OnlyLooks Admitted h
OnlyLooks Admitted (check_if_mounted src tgt ∷ h) = OnlyLooks Admitted h
OnlyLooks Admitted (get_connector_properties ∷ h) = OnlyLooks Admitted h
OnlyLooks Admitted (c ∷ h) = ⊥

-- A mount, under the volume's lock, of a volume that this node has already mounted, whose record is
-- no snapshot, has a delay and stands under its id, whatever the lock and etcd answer: nothing is
-- exported, connected or mounted a second time. Nothing is written where the node has the mount id;
-- else at most the volume's record with the id behind the node's other ids, and nothing else in it
-- or in etcd changes.
pub synchronized_mount_volume-OnlyLooks :
    (env : Env) (config : Config) (args : MountArgs) (vol : Volume) (store : Store)
    (node_mount_info : MountInfo) (ids : List String) (path_info : PathInfo) (delay : ℕ)
    → find_byname args.volname store ≡ some vol
    → lookup vol.id store ≡ some vol
    → vol.node_mount_info ≡ some node_mount_info
    → lookup config.node_id node_mount_info ≡ some ids
    → vol.path_info ≡ some (some path_info)
    → vol.is_snap ≡ some false
    → vol.mount_conflict_delay ≡ some delay
    → ((h : History) → env.flag (check_if_mounted path_info.path path_info.mount_dir) h ≡ true)
    → let final = (synchronized_mount_volume env config args (start store)).1 in
      let after = with_id config.node_id args vol node_mount_info ids in
      OnlyLooks (λ v. (contains args.mount_id ids ≡ false) × (v ≡ after)) final.calls
      × ((final.etcd ≡ store)
          ⊎ ((contains args.mount_id ids ≡ false) × (final.etcd ≡ insert vol.id after store)))
unfolding synchronized_mount_volume get_vol_byname synchronized call ask ◌>>=◌ update_vol
    get_vol_by_id or_not_found reset_undo with_snap_flag with_delay is_vol_mounted_on_this_node
    update_mount_id_list add_mount_id get_success_response
synchronized_mount_volume-OnlyLooks env config args vol store node_mount_info ids path_info delay
      found stored info mine path base known here =
    ground (
      arith,
      here (
          check_if_mounted path_info.path path_info.mount_dir
          ∷ begin_undo
          ∷ etcd_read "/volumes/"
          ∷ get_connector_properties
          ∷ lock_volume args.volname
          ∷ []),
    )
