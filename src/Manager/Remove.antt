-- ===== src/Manager/Remove.antt =====
-- volume_manager.py, `remove_volume`, `remove_snapshot` and `_get_snapshot_by_name`.

pub mod Keeps
pub mod Guards
use python_hpedockerplugin.Prelude.{
  ℕ, zero, suc, ◌+◌, String, Bool, true, false, Option, none, some, List, [], ◌∷◌, str_eq, is_empty,
  if◌then◌else◌,
}
use python_hpedockerplugin.Volume.{Volume, Snapshot, SnapSchedule}
use python_hpedockerplugin.Effect.{
  Call, delete_volume, force_remove_schedule, Error, key_error, Env, M, pure, raise, or_key_error,
  ◌>>=◌, ◌>>◌, try_else, call,
}
use python_hpedockerplugin.Etcd.{get_vol_byname, update_vol, delete_vol}
use python_hpedockerplugin.Locks.{synchronized_volume}
use python_hpedockerplugin.Manager.{
  raised, Response, success, failure, volume_missing, parent_missing, has_child_snapshots,
  snapshot_missing,
}
use python_hpedockerplugin.Manager.Clone.{is_snapshot}

-- The first entry of that name and its index, counted from `idx`.
unfoldable pub find_from : ℕ → List Snapshot → String → Option (Snapshot × ℕ)
find_from idx [] snapname = none
find_from idx (s ∷ rest) snapname =
    let later = find_from (idx + 1) rest snapname in
    if str_eq s.name snapname then some (s, idx) else later

unfoldable pub get_snapshot_by_name : List Snapshot → String → Option (Snapshot × ℕ)
unfolding find_from
get_snapshot_by_name snapshots snapname = find_from 0 snapshots snapname

-- `del snapshots[idx]`
unfoldable pub delete_at : ℕ → List Snapshot → List Snapshot
delete_at idx [] = []
delete_at zero (s ∷ rest) = rest
delete_at (suc idx) (s ∷ rest) = s ∷ delete_at idx rest

abbrev pub flag_of : Option Bool → Bool
flag_of none = false
flag_of (some b) = b

abbrev pub has_children : Volume → Bool
has_children vol = elim vol.snapshots [ none ↦ false | some [] ↦ false | some (s ∷ rest) ↦ true ]

module _ (env : Env) where
  unfoldable pub delete_entry : Volume → List Snapshot → String → Option (Snapshot × ℕ) → M Response
  unfolding delete_at
  delete_entry vol snapshots snapname none = pure (failure (snapshot_missing snapname))
  delete_entry vol snapshots snapname (some (snapshot, idx)) =
      try_else
        (update_vol env vol.id (λ v. record v { snapshots = some (delete_at idx snapshots) }))
        (λ e. pure (failure (raised e))) (λ _. pure success)

  -- Without a name nothing is answered.
  unfoldable pub remove_named : String → Volume → M (Option Response)
  unfolding delete_entry get_snapshot_by_name
  remove_named snapname vol = if str_eq snapname "" then pure none else do
    snapshots ← or_key_error "snapshots" vol.snapshots
    answer ← delete_entry vol snapshots snapname (get_snapshot_by_name snapshots snapname)
    pure (some answer)

  unfoldable pub remove_from_parent : String → String → Option Volume → M (Option Response)
  unfolding remove_named
  remove_from_parent volname snapname none = pure (some (failure (parent_missing volname)))
  remove_from_parent volname snapname (some vol) = remove_named snapname vol

  unfoldable pub remove_snapshot : String → String → M (Option Response)
  unfolding remove_from_parent
  remove_snapshot volname snapname =
      synchronized_volume env volname (some success)
        do vol ← get_vol_byname env volname; remove_from_parent volname snapname vol

  unfoldable pub remove_schedule : Volume → M (Unit {0})
  remove_schedule vol = do
    entry ← or_key_error "snap_metadata" vol.snap_metadata
    schedule ← or_key_error "snap_schedule" entry.snap_schedule
    call env (force_remove_schedule schedule.schedule_name)

  -- `if is_snap: self.remove_snapshot(parent_name, volname)`, whose answer is not read.
  unfoldable pub remove_from_parent_of : String → Option String → M (Unit {0})
  unfolding remove_snapshot
  remove_from_parent_of volname none = pure tt
  remove_from_parent_of volname (some parent_name) = do remove_snapshot parent_name volname; pure tt

  -- The `else` branch of the first `try` statement.
  unfoldable pub remove_from_array : String → Volume → Option String → M (Unit {0})
  unfolding remove_schedule remove_from_parent_of
  remove_from_array volname vol parent_name = do
    if flag_of vol.has_schedule then remove_schedule vol else pure tt
    call env (delete_volume vol.id (is_snapshot vol))
    remove_from_parent_of volname parent_name

  -- `except KeyError: pass`
  unfoldable pub ignore_key_error : Error → M (Unit {0})
  ignore_key_error (key_error key) = pure tt
  ignore_key_error e = raise e

  unfoldable pub forget : Volume → M Response
  unfolding ignore_key_error
  forget vol = do try_else (delete_vol env vol) ignore_key_error pure; pure success

  unfoldable pub remove_found : String → Volume → Option String → M Response
  unfolding remove_from_array forget
  remove_found volname vol parent_name =
      if has_children vol
      then pure (failure (has_child_snapshots volname))
      else try_else (remove_from_array volname vol parent_name) (λ e. pure (failure (raised e)))
          (λ _. forget vol)

  -- `parent_name`, for a snapshot.
  unfoldable pub parent_of : Volume → M (Option String)
  parent_of vol =
      if is_snapshot vol
      then (do
        entry ← or_key_error "snap_metadata" vol.snap_metadata
        pure (some entry.parent_name))
      else pure none

  unfoldable pub remove_unless_missing : String → Option Volume → M Response
  unfolding remove_found parent_of
  remove_unless_missing volname none = pure (failure (volume_missing volname))
  remove_unless_missing volname (some vol) = do
    parent_name ← parent_of vol
    remove_found volname vol parent_name

  unfoldable pub remove_volume : String → M Response
  unfolding remove_unless_missing
  remove_volume volname =
      synchronized_volume env volname success
        do vol ← get_vol_byname env volname; remove_unless_missing volname vol
