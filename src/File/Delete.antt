-- ===== src/File/Delete.antt =====
-- cmd/cmd_deleteshare.py with remove_share of file_manager.py: the deletion of a share, and of its
-- group with the last share on it. The second part runs on a thread of its own.
pub mod Owned
use Prim.Native.String.{◌++◌ as append}
use python_hpedockerplugin.Prelude.{
  String, Bool, true, false, not, ◌&&◌, Option, none, some, List, [], ◌∷◌, is_some, if◌then◌else◌,
}
use python_hpedockerplugin.IpPool.{BackendMetadata}
use python_hpedockerplugin.File.{
  Status, creating, failed, available, unknown, Share, FpgInfo, Call, save_backend,
  delete_fpg_metadata, save_share, delete_share_metadata, delete_fpg, shares_present, delete_share,
  delete_file_store, add_client_ip, remove_client_ip, make_dir, remove_dir, umount, remove_contents,
  mount, Error, metadata_not_found, etcd_failed, lock_failed, save_failed, share_backend, key_error,
  type_error, Result, err, ok, Env, M, pure, raise, ◌>>=◌, ◌>>◌, try_except, call, ask,
  get_backend_metadata, get_fpg_metadata, with_lock,
}
use python_hpedockerplugin.File.Defaults.{release_ip, remove_fpg_from_default_fpgs}
use python_hpedockerplugin.File.Commands.{Config, of_result, or_none, ignoring, fpg_lock}
use python_hpedockerplugin.File.Mount.{Host, get_share_path, mount_dir_of}

pub data Reply : Type 0 where
  deleted is_mounted is_creating backend_failed not_saved : Reply

-- The first address of the share.
abbrev pub first_ip : List (String × String) → Result String
first_ip [] = err type_error
first_ip ((ip, netmask) ∷ rest) = ok ip

abbrev pub as_failed : Share → Share
as_failed share = record share { status = some failed }

module _ (env : Env) (config : Config) (host : Host) (share : Share) where
  abbrev mount_dir : String
  mount_dir = mount_dir_of env host share

  unfoldable pub internal_mount_share : M (Unit {0})
  internal_mount_share = do
    share_path ← get_share_path share
    call env (add_client_ip (or_none share.id) host.my_ip)
    call env (make_dir mount_dir)
    call env (mount share_path mount_dir)

  unfoldable pub internal_unmount_share : M (Unit {0})
  internal_unmount_share = do
    call env (umount mount_dir)
    call env (remove_dir mount_dir)
    call env (remove_client_ip (or_none share.id) host.my_ip)

  -- The contents are deleted if the share can be mounted; whether they are gone is not asked.
  unfoldable pub del_share_contents : M (Unit {0})
  del_share_contents = do
    share_mounted ← try_except (internal_mount_share >> pure true) (λ e. pure false)
    if share_mounted
        then ignoring env config (call env (remove_contents mount_dir)) >> internal_unmount_share
        else pure tt

  unfoldable pub delete_on_backend : M (Unit {0})
  delete_on_backend = elim share.id [ none ↦ pure tt | some id ↦ call env (delete_share id) ]

  -- A share that could not be saved as failed.
  unfoldable pub on_save_error : Error → M Reply
  on_save_error save_failed = pure not_saved
  on_save_error e = raise e

  -- After the record was saved as failed, the function returns no pair, which its caller takes apart.
  unfoldable pub save_as_failed : M Reply
  save_as_failed =
      try_except (call env (save_share (as_failed share)) >> raise type_error) on_save_error

  unfoldable pub on_delete_error : Error → M Reply
  on_delete_error metadata_not_found = save_as_failed
  on_delete_error etcd_failed = save_as_failed
  on_delete_error lock_failed = save_as_failed
  on_delete_error save_failed = save_as_failed
  on_delete_error e = raise e

  unfoldable pub delete_share_from_etcd : M Reply
  delete_share_from_etcd =
      try_except (call env (delete_share_metadata share.name) >> pure deleted) on_delete_error

  unfoldable pub on_backend_error : Error → M Bool
  on_backend_error share_backend = pure false
  on_backend_error e = raise e

  -- The answer, and whether the thread is started.
  unfoldable pub delete_available : M (Reply × Bool)
  delete_available = do
    gone ← try_except (del_share_contents >> (delete_on_backend >> pure true)) on_backend_error
    if gone then delete_share_from_etcd >> pure (deleted, true) else pure (backend_failed, false)

  unfoldable pub execute_in : Option Status → M (Reply × Bool)
  execute_in (some failed) = delete_share_from_etcd >>= λ reply. pure (reply, false)
  execute_in (some creating) = pure (is_creating, false)
  execute_in (some available) = delete_available
  execute_in (some (unknown text)) = delete_available
  execute_in none = raise key_error

  -- `remove_share`
  unfoldable pub remove_share : M (Reply × Bool)
  remove_share =
      if is_some share.path_info then pure (is_mounted, false) else execute_in share.status

  unfoldable pub not_owned : Error → M Bool
  not_owned metadata_not_found = pure false
  not_owned e = raise e

  unfoldable pub fpg_owned_by_docker : (fpg : String) → M Bool
  fpg_owned_by_docker fpg = try_except (get_fpg_metadata env share.cpg fpg >> pure true) not_owned

  unfoldable pub update_backend_metadata : (fpg : String) → M (Unit {0})
  update_backend_metadata fpg = with_lock env config.backend (
      ignoring env config (do
        metadata ← get_backend_metadata env
        ip ← of_result (first_ip share.vfs_ips)
        released ← of_result (release_ip ip metadata)
        updated ← of_result (remove_fpg_from_default_fpgs share.cpg fpg released)
        call env (save_backend updated)))

  unfoldable pub delete_owned : (fpg : String) → M (Unit {0})
  delete_owned fpg = do
    call env (delete_fpg fpg)
    call env (delete_fpg_metadata share.cpg fpg)
    update_backend_metadata fpg

  -- The last share on a group of the plug-in takes the group with it.
  unfoldable pub delete_fpg_if : (fpg : String) → (present : Bool) → M (Unit {0})
  delete_fpg_if fpg present =
      if present
      then pure tt
      else (fpg_owned_by_docker fpg >>= λ owned. if owned then delete_owned fpg else pure tt)

  -- `_continue_delete_on_thread`
  unfoldable pub continue_delete : (fpg : String) → M (Unit {0})
  continue_delete fpg = do
    ignoring env config (call env (delete_file_store fpg share.name))
    with_lock env (fpg_lock env config share.cpg fpg) (do
      present ← ask env (shares_present fpg) (env.flag (shares_present fpg))
      delete_fpg_if fpg present)
