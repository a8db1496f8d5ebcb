-- ===== src/Manager/Tracked.antt =====
-- The shared helpers of volume_manager.py register an undo step for what they did on the array.
use python_hpedockerplugin.Prelude.{Option-cases, inl, inr, String, ◌≡◌, refl, Option, none, some}
use python_hpedockerplugin.Volume.{Volume}
use python_hpedockerplugin.Effect.{
  etcd_write, get_rcg, create_rcg, lock_rcg, unlock_rcg, primary, Env, Store, ◌>>=◌, try_else, call,
  start,
}
use python_hpedockerplugin.Effect.Keeps.{Keeps, Fails, keeps_rules}
use python_hpedockerplugin.Effect.Trace.{compensation, compensations}
use python_hpedockerplugin.Effect.Tracked.{
  Tracked-raised, Keeps-plain-Quiet, Tracked, Quiet, Keeps-plain-Tracked, Keeps-ask-Tracked,
  Keeps-ask_undo,
}
use python_hpedockerplugin.Locks.Keeps.{Keeps-synchronized}
use python_hpedockerplugin.Etcd.{save_vol, get_vol_byname}
use python_hpedockerplugin.Manager.{
  create_backend_volume, create_volume_set, add_volume_to_vvset, volume_set_for, apply_volume_set,
  apply_volume_specs, find_rcg, create_group, add_volume_to_rcg,
}

module _ (env : Env) {K : Store → Type 0} where
  pub create_backend_volume-Tracked :
      (vol : Volume) → Keeps (Tracked env K) (create_backend_volume env vol)
  unfolding create_backend_volume compensation
  create_backend_volume-Tracked vol =
      Keeps-ask_undo env _ _ _ (λ h. refl) (λ h store k. k) (λ a h store k. k)

  pub create_volume_set-Tracked : (id : String) → Keeps (Tracked env K) (create_volume_set env id)
  unfolding create_volume_set compensation
  create_volume_set-Tracked id =
      Keeps-ask_undo env _ _ _ (λ h. refl) (λ h store k. k) (λ a h store k. k)

  pub add_volume_to_vvset-Tracked :
      (vvs_name : String) (vol : Volume)
      → Keeps (Tracked env K) (add_volume_to_vvset env vvs_name vol)
  unfolding add_volume_to_vvset compensation
  add_volume_to_vvset-Tracked vvs_name vol =
      Keeps-ask_undo env _ _ _ (λ h. refl) (λ h store k. k) (λ a h store k. k)

  pub volume_set_for-Tracked : (vol : Volume) → Keeps (Tracked env K) (volume_set_for env vol)
  unfolding volume_set_for
  volume_set_for-Tracked vol = search (keeps_rules, create_volume_set-Tracked)

  pub apply_volume_set-Tracked :
      (vol : Volume) (name : Option String) → Keeps (Tracked env K) (apply_volume_set env vol name)
  unfolding apply_volume_set
  apply_volume_set-Tracked vol none = search keeps_rules
  apply_volume_set-Tracked vol (some name) =
      search (keeps_rules, Keeps-plain-Tracked env, add_volume_to_vvset-Tracked) depth 8

  pub apply_volume_specs-Tracked :
      (vol : Volume) → Keeps (Tracked env K) (apply_volume_specs env vol)
  unfolding apply_volume_specs
  apply_volume_specs-Tracked vol =
      search (keeps_rules, volume_set_for-Tracked, apply_volume_set-Tracked)

  pub find_rcg-Tracked : (name : String) → Keeps (Tracked env K) (find_rcg env name)
  unfolding find_rcg
  find_rcg-Tracked name = Keeps-ask-Tracked env (get_rcg primary name) _ refl

  pub create_group-Tracked : (name : String) → Keeps (Tracked env K) (create_group env name)
  unfolding create_group compensation
  create_group-Tracked name =
      Keeps-synchronized env (lock_rcg name) (unlock_rcg name) _
        (Keeps-plain-Tracked env (lock_rcg name) refl)
        (Keeps-plain-Tracked env (unlock_rcg name) refl)
        (Keeps-ask_undo env (create_rcg name) _ _ (λ h. refl) (λ h store k. k) (λ a h store k. k)) _

  pub add_volume_to_rcg-Tracked :
      (vol : Volume) (name : String) → Keeps (Tracked env K) (add_volume_to_rcg env vol name)
  unfolding add_volume_to_rcg compensation
  add_volume_to_rcg-Tracked vol name =
      Keeps-ask_undo env _ _ _ (λ h. refl) (λ h store k. k) (λ a h store k. k)

  pub save_vol-Fails : (vol : Volume) → Fails (Tracked env K) (save_vol env vol)
  unfolding save_vol call try_else compensation ◌>>=◌
  save_vol-Fails vol = record {
    at = λ s t. elim (Option-cases (env.outcome (etcd_write vol) s.calls)) [
      | inl e ↦ rw (e, save_vol) tt
      | inr (x, e) ↦ rw (e, save_vol) (Tracked-raised env (etcd_write vol) _ s x refl e t)
    ];
  }

  pub get_vol_byname-Quiet : (name : String) → Keeps (Quiet env K) (get_vol_byname env name)
  unfolding get_vol_byname
  get_vol_byname-Quiet name = search (keeps_rules, Keeps-plain-Quiet env)

pub start-Quiet : (env : Env) (store : Store) → Quiet env (λ e. e ≡ store) (start store)
unfolding compensations
start-Quiet env store = record { none_due = refl; kept = refl }
