-- ===== src/Etcd/Keeps.antt =====
-- What every call keeps, the reads and writes of etcd keep.
use python_hpedockerplugin.Prelude.{String, Option, none, some}
use python_hpedockerplugin.Volume.{Volume}
use python_hpedockerplugin.Effect.{Call, Env, State, call}
use python_hpedockerplugin.Effect.Keeps.{Keeps, keeps_rules}
use python_hpedockerplugin.Etcd.{
  or_not_found, get_vol_byname, get_vol_by_id, save_vol, update_vol, delete_vol,
}

module _ (env : Env) {P : State → Type 0} (calls : (c : Call) → Keeps P (call env c)) where
  pub get_vol_byname-Keeps : (volname : String) → Keeps P (get_vol_byname env volname)
  unfolding get_vol_byname
  get_vol_byname-Keeps volname = search (keeps_rules, calls)

  or_not_found-Keeps : (volid : String) (found : Option Volume) → Keeps P (or_not_found volid found)
  unfolding or_not_found
  or_not_found-Keeps volid none = search keeps_rules
  or_not_found-Keeps volid (some vol) = search keeps_rules

  pub get_vol_by_id-Keeps : (volid : String) → Keeps P (get_vol_by_id env volid)
  unfolding get_vol_by_id
  get_vol_by_id-Keeps volid = search (keeps_rules, calls, or_not_found-Keeps)

  pub save_vol-Keeps : (vol : Volume) → Keeps P (save_vol env vol)
  unfolding save_vol
  save_vol-Keeps vol = search (keeps_rules, calls)

  pub update_vol-Keeps :
      (volid : String) (assign : Volume → Volume) → Keeps P (update_vol env volid assign)
  unfolding update_vol
  update_vol-Keeps volid assign = search (keeps_rules, calls, get_vol_by_id-Keeps)

  pub delete_vol-Keeps : (vol : Volume) → Keeps P (delete_vol env vol)
  unfolding delete_vol
  delete_vol-Keeps vol = calls _
