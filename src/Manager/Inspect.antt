-- ===== src/Manager/Inspect.antt =====
-- volume_manager.py: the list of the volumes, the path of one, and the snapshots of a volume brought in
-- line with those that the array has.
pub mod Sync
use python_hpedockerplugin.Prelude.{
  ℕ, suc, String, Bool, true, false, not, Option, none, some, List, [], ◌∷◌, is_empty, contains,
  str_eq, if◌then◌else◌,
}
use python_hpedockerplugin.Volume.{Snapshot, PathInfo, Volume, stored_path_info}
use python_hpedockerplugin.Effect.{
  Call, etcd_read, get_snapshots_by_vol, foreign, Env, Store, M, pure, raise, gets, ◌>>=◌, ◌>>◌,
  call, ask,
}
use python_hpedockerplugin.Etcd.{get_vol_byname, get_vol_path_info, update_vol, delete_vol}
use python_hpedockerplugin.Names.{get_3par_snap_name}

-- An entry of the list; a volume that is not mounted has empty texts.
pub record ListedVolume : Type 0 where
  pub name : String
  pub device_name : String
  pub size : ℕ
  pub mountpoint : String

abbrev pub listed_at : Volume → Option PathInfo → ListedVolume
listed_at vol none = record {
  name = vol.display_name;
  device_name = "";
  size = vol.size;
  mountpoint = "";
}
listed_at vol (some path_info) = record {
  name = vol.display_name;
  device_name = path_info.path;
  size = vol.size;
  mountpoint = path_info.mount_dir;
}

unfoldable pub listed : Store → List ListedVolume
listed [] = []
listed ((id, vol) ∷ rest) = listed_at vol (stored_path_info vol) ∷ listed rest

-- `get_path`: a volume that is not there has no mount point.
pub data PathReply : Type 0 where
  no_mount_point : PathReply
  mount_point : String → PathReply

abbrev pub path_reply : Option PathInfo → PathReply
path_reply none = mount_point ""
path_reply (some path_info) = mount_point path_info.mount_dir

-- `list.remove` of a snapshot; `same` is the equality of two dictionaries.
unfoldable pub remove_snapshot :
    (same : Snapshot → Snapshot → Bool) → Snapshot → List Snapshot → List Snapshot
remove_snapshot same ss [] = []
remove_snapshot same ss (s ∷ snapshots) =
    let rest = remove_snapshot same ss snapshots in if same s ss then snapshots else s ∷ rest

unfoldable pub remove_snapshots :
    (same : Snapshot → Snapshot → Bool) → List Snapshot → List Snapshot → List Snapshot
remove_snapshots same [] snapshots = snapshots
remove_snapshots same (ss ∷ ss_list) snapshots =
    remove_snapshots same ss_list (remove_snapshot same ss snapshots)

module _ (env : Env) (same : Snapshot → Snapshot → Bool) where
  -- The array has the snapshot.
  abbrev pub is_on_array : List String → Snapshot → Bool
  is_on_array bkend_snapshots ss = contains (get_3par_snap_name env.encode ss.id) bkend_snapshots

  unfoldable pub get_snapshots_to_be_deleted : List Snapshot → List String → List Snapshot
  get_snapshots_to_be_deleted [] bkend_snapshots = []
  get_snapshots_to_be_deleted (ss ∷ db_snapshots) bkend_snapshots =
      let rest = get_snapshots_to_be_deleted db_snapshots bkend_snapshots in
      if is_on_array bkend_snapshots ss then rest else ss ∷ rest

  unfoldable pub delete_found : Option Volume → M (Unit {0})
  delete_found none = raise (foreign "TypeError")
  delete_found (some snap_info) = delete_vol env snap_info

  -- `_remove_snap_record`
  unfoldable pub remove_snap_record : String → M (Unit {0})
  remove_snap_record snap_name = get_vol_byname env snap_name >>= delete_found

  unfoldable pub remove_records : List Snapshot → M (Unit {0})
  remove_records [] = pure tt
  remove_records (ss ∷ ss_list) =
      let later = remove_records ss_list in remove_snap_record ss.name >> later

  -- The snapshots that are left; etcd is told of them where some were removed.
  unfoldable pub save_left : String → List Snapshot → List Snapshot → M (List Snapshot)
  save_left vol_id db_snapshots ss_list_remove =
      let left = remove_snapshots same ss_list_remove db_snapshots in
      if is_empty ss_list_remove
      then pure left
      else (remove_records ss_list_remove
          >> (update_vol env vol_id (λ vol. record vol { snapshots = some left }) >> pure left))

  -- `_sync_snapshots_from_array`
  unfoldable pub sync_snapshots_from_array : String → List Snapshot → M (List Snapshot)
  sync_snapshots_from_array vol_id db_snapshots = do
    bkend_snapshots ←
        ask env (get_snapshots_by_vol vol_id) (env.texts (get_snapshots_by_vol vol_id))
    save_left vol_id db_snapshots (get_snapshots_to_be_deleted db_snapshots bkend_snapshots)

  unfoldable pub list_volumes : M (List ListedVolume)
  list_volumes = do call env (etcd_read "/volumes/"); gets (λ s. listed s.etcd)

  unfoldable pub path_of_found : String → Option Volume → M PathReply
  path_of_found volname none = pure no_mount_point
  path_of_found volname (some vol) =
      get_vol_path_info env volname >>= λ path_info. pure (path_reply path_info)

  unfoldable pub get_path : String → M PathReply
  get_path volname = get_vol_byname env volname >>= path_of_found volname
