-- ===== src/Manager/Create/Undo.antt =====
-- `create_volume` undoes what it did when it fails, and leaves etcd alone.
use python_hpedockerplugin.Prelude.{String, ◌≡◌, refl, Option, none, some}
use python_hpedockerplugin.Volume.{Flash, Volume}
use python_hpedockerplugin.Effect.{
  lock_volume, Error, rcg_not_found, ok, Env, Store, ◌>>=◌, start, reset_undo,
}
use python_hpedockerplugin.Effect.Keeps.{Keeps, Fails, Fails-bind, keeps_rules}
use python_hpedockerplugin.Effect.Tracked.{
  Tracked, Quiet, Keeps-plain-Quiet, Keeps-ask-Quiet, Keeps-reset_undo,
}
use python_hpedockerplugin.Manager.{raised, Message, failure}
use python_hpedockerplugin.Manager.Tracked.{
  save_vol-Fails, get_vol_byname-Quiet, start-Quiet, create_backend_volume-Tracked,
  apply_volume_specs-Tracked, find_rcg-Tracked, create_group-Tracked, add_volume_to_rcg-Tracked,
}
use python_hpedockerplugin.Manager.Undone.{
  Undone, Released, FailsTo, FailsTo-bind, FailsTo-try_answer, FailsTo-try_rollback, Quiet-Undone,
  Released-synchronized,
}
use python_hpedockerplugin.Manager.Create.{
  create_volume, CreateArgs, check_qos, create_if_not_found, replicate_volume, replicate_if_asked,
  create_steps, create_new, create_unless_exists, create_volume_locked,
}

module _ (env : Env) {K : Store → Type 0} where
  create_if_not_found-Tracked :
      (name : String) (e : Error) → Keeps (Tracked env K) (create_if_not_found env name e)
  unfolding create_if_not_found
  create_if_not_found-Tracked name (rcg_not_found n) = create_group-Tracked env name
  create_if_not_found-Tracked name e = search keeps_rules

  replicate_volume-Tracked :
      (vol : Volume) (name : String) → Keeps (Tracked env K) (replicate_volume env vol name)
  unfolding replicate_volume
  replicate_volume-Tracked vol name =
      search (keeps_rules, find_rcg-Tracked, create_if_not_found-Tracked, add_volume_to_rcg-Tracked)
        depth 7

  replicate_if_asked-Tracked :
      (vol : Volume) (name : Option String)
      → Keeps (Tracked env K) (replicate_if_asked env vol name)
  unfolding replicate_if_asked
  replicate_if_asked-Tracked vol none = search keeps_rules
  replicate_if_asked-Tracked vol (some name) = search (keeps_rules, replicate_volume-Tracked)

  -- Whether the last step fails or an earlier one, all that was done is registered.
  create_steps-Fails :
      (args : CreateArgs) (vol : Volume) → Fails (Tracked env K) (create_steps env args vol)
  unfolding create_steps
  create_steps-Fails args vol =
      search
        (
          keeps_rules, Fails-bind, create_backend_volume-Tracked, apply_volume_specs-Tracked,
          replicate_if_asked-Tracked, save_vol-Fails,
        )
        depth 7

  check_qos-Quiet :
      (qos : Option String) (flash : Option Flash) → Keeps (Quiet env K) (check_qos env qos flash)
  unfolding check_qos
  check_qos-Quiet none flash = search keeps_rules
  check_qos-Quiet (some qos) (some flash) = search (keeps_rules, Keeps-plain-Quiet env)
  check_qos-Quiet (some qos) none =
      search (keeps_rules, Keeps-plain-Quiet env, Keeps-ask-Quiet env) depth 7

  create_new-Undone :
      (args : CreateArgs) (flash : Option Flash)
      → FailsTo (Quiet env K) (Undone env K) (create_new env args flash)
  unfolding create_new ◌>>=◌ reset_undo
  create_new-Undone args flash = record {
    at = λ s q.
        (FailsTo-try_rollback env K _ (create_steps-Fails args _)).at (reset_undo s).1
          (Keeps-reset_undo env s q);
  }

  create_unless_exists-Undone :
      (args : CreateArgs) (found : Option Volume)
      → FailsTo (Quiet env K) (Undone env K) (create_unless_exists env args found)
  unfolding create_unless_exists ◌>>=◌
  create_unless_exists-Undone args (some vol) = record { at = λ s q. tt }
  create_unless_exists-Undone args none =
      FailsTo-try_answer _ _ raised (Quiet-Undone env K) (check_qos-Quiet _ _)
        (create_new-Undone args)

  create_volume_locked-Undone :
      (args : CreateArgs) → FailsTo (Quiet env K) (Undone env K) (create_volume_locked env args)
  unfolding create_volume_locked
  create_volume_locked-Undone args =
      FailsTo-bind _ _ (Quiet-Undone env K) (get_vol_byname-Quiet env args.volname)
        (create_unless_exists-Undone args)

-- A create request that answers with an error, for whatever reason and whatever the array and etcd
-- answered, has made some calls, then exactly the compensating call of each of those calls that
-- completed since its undo list was set up, the newest first, and then released the volume's lock;
-- what etcd holds is unchanged.
pub create_volume-Released :
    (env : Env) (args : CreateArgs) (store : Store) (m : Message)
    → (create_volume env args (start store)).0 ≡ ok (failure m)
    → Released env (λ e. e ≡ store) args.volname (create_volume env args (start store)).1
unfolding create_volume
create_volume-Released env args store m h =
    Released-synchronized env args.volname (λ e. e ≡ store) (create_volume_locked env args)
      (start store) m (create_volume_locked-Undone env args)
      ((Keeps-plain-Quiet env (lock_volume args.volname) refl).at (start store)
        (start-Quiet env store))
      h
