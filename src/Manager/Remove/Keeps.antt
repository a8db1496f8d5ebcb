-- ===== src/Manager/Remove/Keeps.antt =====
-- What every call keeps, the parts of a removal keep.
use python_hpedockerplugin.Prelude.{ℕ, String, Option, none, some, List}
use python_hpedockerplugin.Volume.{Volume, Snapshot}
use python_hpedockerplugin.Effect.{Call, Env, State, call}
use python_hpedockerplugin.Effect.Keeps.{Keeps, keeps_rules}
use python_hpedockerplugin.Etcd.Keeps.{get_vol_byname-Keeps, update_vol-Keeps}
use python_hpedockerplugin.Locks.Keeps.{Keeps-synchronized}
use python_hpedockerplugin.Manager.Remove.{
  delete_entry, remove_named, remove_from_parent, remove_snapshot, remove_schedule,
  remove_from_parent_of,
}

module _ (env : Env) {P : State → Type 0} (calls : (c : Call) → Keeps P (call env c)) where
  delete_entry-Keeps :
      (vol : Volume) (snapshots : List Snapshot) (name : String) (found : Option (Snapshot × ℕ))
      → Keeps P (delete_entry env vol snapshots name found)
  unfolding delete_entry
  delete_entry-Keeps vol snapshots name none = search keeps_rules
  delete_entry-Keeps vol snapshots name (some (s, idx)) =
      search (keeps_rules, update_vol-Keeps env calls)

  remove_named-Keeps : (name : String) (vol : Volume) → Keeps P (remove_named env name vol)
  unfolding remove_named
  remove_named-Keeps name vol = search (keeps_rules, delete_entry-Keeps)

  remove_from_parent-Keeps :
      (volname name : String) (found : Option Volume)
      → Keeps P (remove_from_parent env volname name found)
  unfolding remove_from_parent
  remove_from_parent-Keeps volname name none = search keeps_rules
  remove_from_parent-Keeps volname name (some vol) = remove_named-Keeps name vol

  pub remove_snapshot-Keeps : (volname name : String) → Keeps P (remove_snapshot env volname name)
  unfolding remove_snapshot
  remove_snapshot-Keeps volname name =
      Keeps-synchronized env _ _ _ (calls _) (calls _)
        (search (keeps_rules, get_vol_byname-Keeps env calls, remove_from_parent-Keeps)) _

  pub remove_from_parent_of-Keeps :
      (volname : String) (parent : Option String)
      → Keeps P (remove_from_parent_of env volname parent)
  unfolding remove_from_parent_of
  remove_from_parent_of-Keeps volname none = search keeps_rules
  remove_from_parent_of-Keeps volname (some parent) = search (keeps_rules, remove_snapshot-Keeps)

  pub remove_schedule-Keeps : (vol : Volume) → Keeps P (remove_schedule env vol)
  unfolding remove_schedule
  remove_schedule-Keeps vol = search (keeps_rules, calls) depth 8
