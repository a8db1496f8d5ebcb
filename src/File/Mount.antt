-- ===== src/File/Mount.antt =====
-- file_manager.py: how a share is mounted on a node and unmounted from it.
pub mod Records
use Prim.Native.String.{◌++◌ as append}
use python_hpedockerplugin.Prelude.{
  ℕ, String, Bool, true, false, not, ◌&&◌, ◌||◌, Option, none, some, List, [], ◌∷◌, ◌++◌, contains,
  lookup, insert, remove_key, is_empty, is_some, str_eq, if◌then◌else◌,
}
use python_hpedockerplugin.Request.{codes}
use python_hpedockerplugin.Request.Share.{split_at}
use python_hpedockerplugin.Python.{ℤ, is_zero, int, int_of_codes, truthy}
use python_hpedockerplugin.IpPool.{remove_first}
use python_hpedockerplugin.File.{
  Status, creating, failed, available, unknown, Share, Call, save_share, add_client_ip,
  remove_client_ip, usr_check, set_acl, chmod, chown, make_dir, remove_dir, umount, mount, Error,
  share_backend, value_error, type_error, index_error, Env, State, M, pure, raise, gets, or_raise,
  ◌>>=◌, ◌>>◌, try_except, call, ask,
}

abbrev pub PathInfo : Type 0
PathInfo = List (String × List String)

-- The node: its id, its address and the directory under which it mounts.
pub record Host : Type 0 where
  pub node_id : String
  pub my_ip : String
  pub mount_prefix : String

pub data Reply : Type 0 where
  mounted : (mount_dir share_path : String) → Reply
  unmounted failed_state creating_state unknown_state : Reply
  no_user_or_group acl_failed : (mount_dir share_path : String) → Reply

pub data Mode : Type 0 where
  number : ℤ → Mode
  acl : String → Mode

pub record Permissions : Type 0 where
  pub owner : Option (ℤ × ℤ)
  pub mode : Option Mode

unfoldable pub owner_of : List (List ℕ) → M (ℤ × ℤ)
owner_of (user ∷ group ∷ rest) = do
  uid ← or_raise value_error (int_of_codes user)
  gid ← or_raise value_error (int_of_codes group)
  pure (uid, gid)
owner_of (user ∷ []) = or_raise value_error (int_of_codes user) >> raise index_error
owner_of [] = raise index_error

unfoldable pub read_owner : Option String → M (Option (ℤ × ℤ))
read_owner none = pure none
read_owner (some fs_owner) =
    if str_eq fs_owner ""
    then pure none
    else (owner_of (split_at b':' (codes fs_owner)) >>= λ owner. pure (some owner))

abbrev pub mode_of : String → Mode
mode_of fs_mode = elim (int fs_mode) [ none ↦ acl fs_mode | some n ↦ number n ]

abbrev pub read_mode : Option String → Option Mode
read_mode none = none
read_mode (some fs_mode) = if str_eq fs_mode "" then none else some (mode_of fs_mode)

-- `fUser or fGroup or fMode`: zeros count as nothing.
abbrev pub mode_asked : Option Mode → Bool
mode_asked none = false
mode_asked (some (number n)) = not (is_zero n)
mode_asked (some (acl text)) = true

abbrev pub user_grp_perm : Permissions → Bool
user_grp_perm permissions = elim permissions.owner [
  | none ↦ mode_asked permissions.mode
  | some (uid, gid) ↦ not (is_zero uid) || not (is_zero gid) || mode_asked permissions.mode
]

abbrev pub text_or_none : Option String → String
text_or_none none = "None"
text_or_none (some text) = text

-- `_get_share_path`
abbrev pub share_path_on : Share → String → String
share_path_on share ip = append ip (
    append ":/" (
      append (text_or_none share.fpg)
        (append "/" (append (text_or_none share.vfs) (append "/" share.name)))))

unfoldable pub get_share_path : Share → M String
get_share_path share = elim share.vfs_ips [
  | [] ↦ raise index_error
  | vfs_ip ∷ rest ↦ pure (share_path_on share vfs_ip.0)
]

-- `path_info` of a share: an absent key and an empty dictionary are alike.
abbrev pub nodes_of : Share → PathInfo
nodes_of share = elim share.path_info [ none ↦ [] | some nodes ↦ nodes ]

abbrev pub ids_on : String → PathInfo → List String
ids_on node_id nodes = elim (lookup node_id nodes) [ none ↦ [] | some mount_ids ↦ mount_ids ]

abbrev pub with_ids : Share → String → List String → Share
with_ids share node_id mount_ids = record share {
  path_info = some (insert node_id mount_ids (nodes_of share));
}

-- The record of a share that this node has mounted.
abbrev pub attached : Host → Share → String → Share
attached host share mount_id = record (with_ids share host.node_id (mount_id ∷ [])) {
  client_ips = share.client_ips ++ host.my_ip ∷ [];
}

-- The record without a mount id that is not the last one of its node.
abbrev pub without_id : Host → Share → String → Share
without_id host share mount_id =
    with_ids share host.node_id (remove_first mount_id (ids_on host.node_id (nodes_of share)))

abbrev pub some_unless_empty : PathInfo → Option PathInfo
some_unless_empty [] = none
some_unless_empty (node ∷ nodes) = some (node ∷ nodes)

-- The record that no longer has the node.
abbrev pub detached : Host → Share → Share
detached host share = record share {
  client_ips = remove_first host.my_ip share.client_ips;
  path_info = some_unless_empty (remove_key host.node_id (nodes_of share));
}

module _ (env : Env) (host : Host) where
  abbrev pub mount_dir_of : Share → String
  mount_dir_of share = append host.mount_prefix share.name

  -- Where the access control list cannot be set, the share is unmounted: true.
  unfoldable pub give_up : (mount_dir : String) → Error → M Bool
  give_up mount_dir share_backend = do
    call env (umount mount_dir)
    call env (remove_dir mount_dir)
    pure true
  give_up mount_dir e = raise e

  unfoldable pub apply_mode : Share → (mount_dir : String) → Option Mode → M Bool
  apply_mode share mount_dir none = pure false
  apply_mode share mount_dir (some (number n)) = call env (chmod n mount_dir) >> pure false
  apply_mode share mount_dir (some (acl text)) =
      try_except (call env (set_acl text (text_or_none share.id)) >> pure false) (give_up mount_dir)

  unfoldable pub apply_permissions : Share → (mount_dir : String) → Permissions → M Bool
  apply_permissions share mount_dir permissions = elim permissions.owner [
    | none ↦ raise type_error
    | some owner ↦ do call env (chown owner mount_dir); apply_mode share mount_dir permissions.mode
  ]

  unfoldable pub permissions_if : Bool → Share → (mount_dir : String) → Permissions → M Bool
  permissions_if asked share mount_dir permissions =
      if asked then apply_permissions share mount_dir permissions else pure false

  unfoldable pub save_mounted :
      Share → String → (mount_dir share_path : String) → (refused : Bool) → M Reply
  save_mounted share mount_id mount_dir share_path true = pure (acl_failed mount_dir share_path)
  save_mounted share mount_id mount_dir share_path false = do
    call env (save_share (attached host share mount_id))
    pure (mounted mount_dir share_path)

  unfoldable pub mount_here :
      (asked : Bool) → Share → String → (mount_dir share_path : String) → Permissions → M Reply
  mount_here asked share mount_id mount_dir share_path permissions = do
    call env (add_client_ip (text_or_none share.id) host.my_ip)
    call env (make_dir mount_dir)
    call env (mount share_path mount_dir)
    refused ← permissions_if asked share mount_dir permissions
    save_mounted share mount_id mount_dir share_path refused

  unfoldable pub first_on_node :
      Share → String → (mount_dir share_path : String) → Permissions → M Reply
  first_on_node share mount_id mount_dir share_path permissions =
      if user_grp_perm permissions && is_empty (nodes_of share)
      then (ask env (usr_check permissions.owner) (env.flag (usr_check permissions.owner))
          >>= λ known.
              if known
              then mount_here true share mount_id mount_dir share_path permissions
              else pure (no_user_or_group mount_dir share_path))
      else mount_here false share mount_id mount_dir share_path permissions

  -- The share is mounted on this node already.
  unfoldable pub once_more : Share → String → List String → M (Unit {0})
  once_more share mount_id mount_ids =
      if contains mount_id mount_ids
      then pure tt
      else call env (save_share (with_ids share host.node_id (mount_ids ++ mount_id ∷ [])))

  unfoldable pub mount_available : Share → String → M Reply
  mount_available share mount_id = do
    owner ← read_owner share.fs_owner
    share_path ← get_share_path share
    if is_empty (ids_on host.node_id (nodes_of share))
        then first_on_node share mount_id (mount_dir_of share) share_path
            (record { owner = owner; mode = read_mode share.fs_mode })
        else do
          once_more share mount_id (ids_on host.node_id (nodes_of share))
          pure (mounted (mount_dir_of share) share_path)

  unfoldable pub mount_in_state : Option Status → Share → String → M Reply
  mount_in_state (some failed) share mount_id = pure failed_state
  mount_in_state (some creating) share mount_id = pure creating_state
  mount_in_state (some (unknown text)) share mount_id = pure unknown_state
  mount_in_state (some available) share mount_id = mount_available share mount_id
  mount_in_state none share mount_id = mount_available share mount_id

  unfoldable pub mount_share : Share → String → M Reply
  mount_share share mount_id = mount_in_state share.status share mount_id

  -- The last mount of the share on this node.
  unfoldable pub detach : Share → M (Unit {0})
  detach share = do
    call env (umount (mount_dir_of share))
    call env (remove_dir (mount_dir_of share))
    if contains host.my_ip share.client_ips then pure tt else raise value_error
    call env (remove_client_ip (text_or_none share.id) host.my_ip)
    call env (save_share (detached host share))

  unfoldable pub unmount_share : Share → String → M Reply
  unmount_share share mount_id =
      let mount_ids = ids_on host.node_id (nodes_of share) in
      if contains mount_id mount_ids
      then ((if is_empty (remove_first mount_id mount_ids)
            then detach share
            else call env (save_share (without_id host share mount_id)))
          >> pure unmounted)
      else pure unmounted
