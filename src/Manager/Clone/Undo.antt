-- ===== src/Manager/Clone/Undo.antt =====
-- `_clone_volume` undoes what it did when it fails.
use python_hpedockerplugin.Prelude.{ℕ, String, ◌≡◌, refl, Option, none, some}
use python_hpedockerplugin.Volume.{Volume}
use python_hpedockerplugin.Effect.{lock_volume, ok, Env, Store, State, ◌>>=◌, start, reset_undo}
use python_hpedockerplugin.Effect.Keeps.{Keeps, Fails, Fails-bind}
use python_hpedockerplugin.Effect.Trace.{compensation}
use python_hpedockerplugin.Effect.Tracked.{
  Tracked, Quiet, Keeps-ask_undo, Keeps-plain-Quiet, Keeps-reset_undo, reset_undo-Quiet,
}
use python_hpedockerplugin.Manager.{Message, failure, clone_backend_volume}
use python_hpedockerplugin.Manager.Tracked.{apply_volume_specs-Tracked, save_vol-Fails, start-Quiet}
use python_hpedockerplugin.Manager.Undone.{
  Undone, Released, OnFailure, Quiet-Undone, FailsTo, FailsTo-try_rollback, Released-synchronized,
}
use python_hpedockerplugin.Manager.Clone.{
  CloneArgs, clone_steps, clone_with_delay, clone_locked, clone_to,
}

module _ (env : Env) {K : Store → Type 0} where
  clone_backend_volume-Tracked :
      (src_vol clone_vol : Volume)
      → Keeps (Tracked env K) (clone_backend_volume env src_vol clone_vol)
  unfolding clone_backend_volume compensation
  clone_backend_volume-Tracked src_vol clone_vol =
      Keeps-ask_undo env _ _ _ (λ h. refl) (λ h store k. k) (λ a h store k. k)

  clone_steps-Fails :
      (args : CloneArgs) (src_vol clone_vol : Volume)
      → Fails (Tracked env K) (clone_steps env args src_vol clone_vol)
  unfolding clone_steps
  clone_steps-Fails args src_vol clone_vol =
      search (Fails-bind, clone_backend_volume-Tracked, apply_volume_specs-Tracked, save_vol-Fails)

  clone_with_delay-Undone :
      (args : CloneArgs) (src_vol : Volume) (size : ℕ) (cpg snap_cpg : Option String)
      (delay : Option ℕ) (s : State)
      → Quiet env K s
      → Tracked env K s
      → OnFailure (Undone env K) (clone_with_delay env args src_vol size cpg snap_cpg delay s)
  unfolding clone_with_delay ◌>>=◌
  clone_with_delay-Undone args src_vol size cpg snap_cpg none s q t = Quiet-Undone env K s q
  clone_with_delay-Undone args src_vol size cpg snap_cpg (some delay) s q t =
      (FailsTo-try_rollback env K _ (clone_steps-Fails args src_vol _)).at s t

  clone_locked-Undone :
      (args : CloneArgs) (src_vol : Volume) (size : ℕ) (cpg snap_cpg : Option String)
      → FailsTo (Quiet env K) (Undone env K) (clone_locked env args src_vol size cpg snap_cpg)
  unfolding clone_locked ◌>>=◌ reset_undo
  clone_locked-Undone args src_vol size cpg snap_cpg = record {
    at = λ s q.
        clone_with_delay-Undone args src_vol size cpg snap_cpg src_vol.mount_conflict_delay
          (reset_undo s).1 (reset_undo-Quiet env s q.kept) (Keeps-reset_undo env s q);
  }

-- Where making a clone answers with an error, the calls made are followed by exactly the compensating
-- call of each that completed, the newest first, and then by the release of the clone's lock; what
-- etcd holds is unchanged.
pub clone_to-Released :
    (env : Env) (args : CloneArgs) (src_vol : Volume) (size : ℕ) (cpg snap_cpg : Option String)
    (store : Store) (m : Message)
    → (clone_to env args src_vol size cpg snap_cpg (start store)).0 ≡ ok (failure m)
    → Released env
        (λ e. e ≡ store)
        args.clone_name
        (clone_to env args src_vol size cpg snap_cpg (start store)).1
unfolding clone_to
clone_to-Released env args src_vol size cpg snap_cpg store m h =
    Released-synchronized env args.clone_name (λ e. e ≡ store)
      (clone_locked env args src_vol size cpg snap_cpg) (start store) m
      (clone_locked-Undone env args src_vol size cpg snap_cpg)
      ((Keeps-plain-Quiet env (lock_volume args.clone_name) refl).at (start store)
        (start-Quiet env store))
      h
