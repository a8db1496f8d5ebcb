-- ===== src/Unmount.antt =====
-- volume_manager.py, `unmount_volume`.
pub mod Ids
pub mod Old
pub mod InUse
use python_hpedockerplugin.Prelude.{
  String, Bool, true, false, Option, none, some, List, [], ◌∷◌, str_eq, contains, lookup, insert,
  is_some, is_empty, if◌then◌else◌,
}
use python_hpedockerplugin.Volume.{ConnectionInfo, PathInfo, Volume, default_mount_volume}
use python_hpedockerplugin.Effect.{
  Array, primary, secondary, get_connector_properties, disconnect_volume, umount_dir, remove_dir,
  terminate_connection, Error, umount_exception, Env, M, pure, raise, or_key_error, ◌>>=◌, ◌>>◌,
  try_else, call,
}
use python_hpedockerplugin.Etcd.{get_vol_byname, get_vol_path_info, save_vol, update_vol}
use python_hpedockerplugin.Locks.{synchronized_volume}
use python_hpedockerplugin.Manager.{Response, success}
use python_hpedockerplugin.Replication.{Config}
use python_hpedockerplugin.Mount.{MountInfo, or_type_error}
use python_hpedockerplugin.Mount.Fencing.{OldPaths}
use python_hpedockerplugin.Mount.Attach.{MountArgs}

-- `mount_id_list.remove(mount_id)`: the first one, if there is one.
unfoldable pub remove_mount_id : String → List String → List String
remove_mount_id mount_id [] = []
remove_mount_id mount_id (i ∷ ids) =
    let rest = remove_mount_id mount_id ids in if str_eq i mount_id then ids else i ∷ rest

-- The first entry of the node, and the list without it.
unfoldable pub take_old_path : String → OldPaths → Option (Option PathInfo × OldPaths)
take_old_path node_id [] = none
take_old_path node_id ((n, p) ∷ rest) =
    let later = take_old_path node_id rest in
    if str_eq n node_id
    then some (p, rest)
    else elim later [ none ↦ none | some (found, left) ↦ some (found, (n, p) ∷ left) ]

-- An empty list is removed with its key.
abbrev pub or_removed : OldPaths → Option OldPaths
or_removed [] = none
or_removed (entry ∷ rest) = some (entry ∷ rest)

-- What the fencing part decides: answer at once, or clean up. `old` is a path of before the volume
-- was taken by another node.
pub data Decision : Type 0 where
  answer_now : Decision
  clean_up : (old : Option PathInfo) (node_owns_volume : Bool) → Decision

module _ (env : Env) where
  unfoldable pub use_old_path : Volume → Option (Option PathInfo × OldPaths) → M Decision
  unfolding or_type_error
  use_old_path vol none = pure answer_now
  use_old_path vol (some (path_info, left)) = do
    save_vol env (record vol { old_path_info = or_removed left })
    found ← or_type_error path_info
    pure (clean_up (some found) false)

  unfoldable pub not_owner : String → Volume → M Decision
  unfolding use_old_path
  not_owner node_id vol =
      use_old_path vol
        (elim vol.old_path_info [ none ↦ none | some old ↦ take_old_path node_id old ])

  unfoldable pub drop_mount_id : String → Volume → MountInfo → String → List String → M Decision
  drop_mount_id node_id vol node_mount_info mount_id ids = do
    let left = remove_mount_id mount_id ids
    update_vol env vol.id
        (λ v. record v { node_mount_info = some (insert node_id left node_mount_info) })
    if is_empty left
        then (do save_vol env (record vol { node_mount_info = none }); pure (clean_up none true))
        else pure answer_now

  unfoldable pub owner_or_not :
      String → Volume → MountInfo → String → Option (List String) → M Decision
  unfolding not_owner drop_mount_id
  owner_or_not node_id vol node_mount_info mount_id none = not_owner node_id vol
  owner_or_not node_id vol node_mount_info mount_id (some ids) =
      drop_mount_id node_id vol node_mount_info mount_id ids

  unfoldable pub decide : String → Volume → Option MountInfo → String → M Decision
  unfolding owner_or_not
  decide node_id vol none mount_id = pure (clean_up none true)
  decide node_id vol (some node_mount_info) mount_id =
      owner_or_not node_id vol node_mount_info mount_id (lookup node_id node_mount_info)

  unfoldable pub path_to_clean : String → Option PathInfo → M PathInfo
  path_to_clean volname (some path_info) = pure path_info
  path_to_clean volname none = do
    found ← get_vol_path_info env volname
    elim found [ none ↦ raise (umount_exception volname) | some path_info ↦ pure path_info ]

  -- OS Brick has removed the devices of the second array already for iSCSI.
  unfoldable pub disconnect_remote : Option ConnectionInfo → M (Unit {0})
  disconnect_remote none = pure tt
  disconnect_remote (some info) =
      if str_eq info.driver_volume_type "iscsi" then pure tt else call env (disconnect_volume info)

  -- `_unmount_volume`, whose exception is ignored.
  unfoldable pub terminate : Array → Volume → Bool → M (Unit {0})
  terminate array vol is_snap =
      try_else (call env (terminate_connection array vol.id is_snap)) (λ _. pure tt) pure

  unfoldable pub clean : Config → MountArgs → Volume → Bool → Bool → PathInfo → M Response
  unfolding disconnect_remote terminate
  clean config args vol is_snap node_owns_volume path_info = do
    call env get_connector_properties
    if str_eq args.vol_mount default_mount_volume
        then (do
          call env (umount_dir path_info.mount_dir)
          call env (remove_dir path_info.mount_dir))
        else pure tt
    call env (disconnect_volume path_info.connection_info)
    disconnect_remote path_info.remote_connection_info
    terminate primary vol is_snap
    if config.replication then terminate secondary vol is_snap else pure tt
    if node_owns_volume
        then update_vol env vol.id (λ v. record v { path_info = some none })
        else pure tt
    pure success

  unfoldable pub carry_out : Config → MountArgs → Volume → Bool → Decision → M Response
  unfolding path_to_clean clean
  carry_out config args vol is_snap answer_now = pure success
  carry_out config args vol is_snap (clean_up old node_owns_volume) = do
    path_info ← path_to_clean args.volname old
    clean config args vol is_snap node_owns_volume path_info

  unfoldable pub unmount_found : Config → MountArgs → Option Volume → M Response
  unfolding decide carry_out
  unmount_found config args none = raise (umount_exception args.volname)
  unmount_found config args (some vol) = do
    is_snap ← or_key_error "is_snap" vol.is_snap
    decision ← decide config.node_id vol vol.node_mount_info args.mount_id
    carry_out config args vol is_snap decision

  unfoldable pub unmount_volume : Config → MountArgs → M Response
  unfolding unmount_found
  unmount_volume config args =
      synchronized_volume env args.volname success
        (do vol ← get_vol_byname env args.volname; unmount_found config args vol)
