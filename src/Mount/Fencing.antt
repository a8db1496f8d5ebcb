-- ===== src/Mount/Fencing.antt =====
-- volume_manager.py, `_synchronized_mount_volume`: a volume that another node has mounted is taken
-- from that node, whose path is remembered for its own later unmount.
pub mod Since
pub mod First
use python_hpedockerplugin.Prelude.{
  String, Bool, Option, none, some, List, [], ◌∷◌, ◌++◌, remove_key,
}
use python_hpedockerplugin.Volume.{PathInfo, Volume}
use python_hpedockerplugin.Effect.{foreign, Env, M, pure, raise, ◌>>=◌, ◌>>◌}
use python_hpedockerplugin.Etcd.{update_vol}
use python_hpedockerplugin.Replication.{Config, force_remove_volume_vlun}
use python_hpedockerplugin.Mount.{MountInfo}

abbrev pub OldPaths : Type 0
OldPaths = List (String × Option PathInfo)

-- All entries of the node are replaced by one at the end.
unfoldable pub replace_old_path : String → Option PathInfo → OldPaths → OldPaths
replace_old_path node_id path_info old = remove_key node_id old ++ (node_id, path_info) ∷ []

-- `vol.get('old_path_info', [])`
abbrev pub old_paths : Volume → OldPaths
old_paths vol = elim vol.old_path_info [ none ↦ [] | some old ↦ old ]

-- `list(node_mount_info.keys())[0]`
unfoldable pub first_node : MountInfo → M String
first_node [] = raise (foreign "list index out of range")
first_node ((node_id, ids) ∷ rest) = pure node_id

module _ (env : Env) where
  unfoldable pub remember : Volume → MountInfo → Option (Option PathInfo) → M (Unit {0})
  unfolding first_node replace_old_path
  remember vol node_mount_info none = pure tt
  remember vol node_mount_info (some path_info) = do
    old_node_id ← first_node node_mount_info
    update_vol env vol.id (λ v. record v {
      old_path_info = some (replace_old_path old_node_id path_info (old_paths vol));
    })

  unfoldable pub fence : Config → Volume → Bool → MountInfo → M (Unit {0})
  unfolding remember
  fence config vol is_snap node_mount_info = do
    force_remove_volume_vlun env config vol is_snap
    remember vol node_mount_info vol.path_info
