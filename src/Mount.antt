-- ===== src/Mount.antt =====
-- volume_manager.py, the helpers of `mount_volume`: which node has a volume mounted, and for which
-- containers. `node_mount_info` is a dictionary from node ids to the mount ids of that node.

pub mod Wait
pub mod Shared
pub mod Connect
pub mod Fencing
pub mod Attach
pub mod Session
use python_hpedockerplugin.Prelude.{
  ℕ, zero, suc, String, Bool, true, false, Option, none, some, List, [], ◌∷◌, ◌++◌, contains,
  lookup, insert, is_some, if◌then◌else◌,
}
use python_hpedockerplugin.Volume.{Volume, PathInfo, stored_path_info}
use python_hpedockerplugin.Effect.{
  check_if_mounted, sleep, Error, foreign, key_error, Env, M, pure, raise, gets, or_key_error,
  ◌>>=◌, ◌>>◌, call, ask,
}
use python_hpedockerplugin.Etcd.{get_vol_by_id, update_vol}
use python_hpedockerplugin.Manager.{Response, mounted}

abbrev pub MountInfo : Type 0
MountInfo = List (String × List String)

-- VolumeOwnedAndMounted, VolumeOwnedAndNotMounted, VolumeNotOwned
pub data Ownership : Type 0 where
  owned_and_mounted owned_and_not_mounted not_owned : Ownership

abbrev pub none_error : Error
none_error = foreign "'NoneType' object is not subscriptable"

-- `x[key]` where `x` may be None.
unfoldable pub or_type_error : {A : Type 0} → Option A → M A
or_type_error none = raise none_error
or_type_error (some a) = pure a

-- The mount ids with one more at the end, if they lack it.
unfoldable pub add_mount_id : String → List String → List String
add_mount_id mount_id ids = if contains mount_id ids then ids else ids ++ mount_id ∷ []

module _ (env : Env) where
  unfoldable pub is_mounted_here : Option PathInfo → M Ownership
  unfolding or_type_error
  is_mounted_here found = do
    path_info ← or_type_error found
    let c = check_if_mounted path_info.path path_info.mount_dir
    mounted_here ← ask env c (env.flag c)
    pure (if mounted_here then owned_and_mounted else owned_and_not_mounted)

  -- `_is_vol_mounted_on_this_node`
  unfoldable pub is_vol_mounted_on_this_node : String → MountInfo → Volume → M Ownership
  unfolding is_mounted_here
  is_vol_mounted_on_this_node node_id node_mount_info vol =
      if is_some (lookup node_id node_mount_info)
      then is_mounted_here (stored_path_info vol)
      else pure not_owned

  -- `_update_mount_id_list`
  unfoldable pub update_mount_id_list : String → Volume → MountInfo → String → M (Unit {0})
  update_mount_id_list node_id vol node_mount_info mount_id = do
    ids ← or_key_error node_id (lookup node_id node_mount_info)
    if contains mount_id ids
        then pure tt
        else update_vol env vol.id (λ v. record v {
          node_mount_info = some (insert node_id (add_mount_id mount_id ids) node_mount_info);
        })

  -- `_get_success_response`
  unfoldable pub get_success_response : Volume → M Response
  unfolding or_type_error
  get_success_response vol = do
    found ← or_key_error "path_info" vol.path_info
    path_info ← or_type_error found
    gets (λ s.
        mounted vol.display_name path_info.mount_dir (env.realpath path_info.device_path s.calls))

  -- The loop over `range(0, mount_conflict_delay)`: whether the volume was unmounted meanwhile.
  unfoldable pub wait_for_unmount : ℕ → String → M Bool
  wait_for_unmount zero vol_id = pure false
  wait_for_unmount (suc rounds) vol_id =
      let later = wait_for_unmount rounds vol_id in
      do
        call env sleep
        vol ← get_vol_by_id env vol_id
        if is_some vol.node_mount_info then later else pure true

  -- `_wait_for_graceful_vol_unmount`
  unfoldable pub wait_for_graceful_vol_unmount : Volume → M Bool
  unfolding wait_for_unmount
  wait_for_graceful_vol_unmount vol = do
    delay ← or_key_error "mount_conflict_delay" vol.mount_conflict_delay
    wait_for_unmount delay vol.id
