-- ===== src/Manager/Snapshot/Undo.antt =====
-- Taking a snapshot undoes what it did when it fails, and leaves every record but its own alone.
use python_hpedockerplugin.Prelude.{
  String, ◌≡◌, refl, ◌≢◌, lookup, lookup-insert, lookup-remove_key, arith, eq_iff,
}
use python_hpedockerplugin.Volume.{Volume}
use python_hpedockerplugin.Effect.{
  etcd_write, Result, ok, err, Env, Store, State, pure, ◌>>=◌, start, reset_undo, resume, try_else,
}
use python_hpedockerplugin.Effect.Keeps.{
  Keeps, Fails, OnError, Fails-bind, Keeps-try, Keeps-raise, Keeps-pure, keeps_rules,
}
use python_hpedockerplugin.Effect.Trace.{compensation, compensations}
use python_hpedockerplugin.Effect.Tracked.{
  Tracked, Quiet, Keeps-ask_undo, ask_undo-Quiet, Keeps-plain-Quiet, Keeps-reset_undo,
  reset_undo-Quiet,
}
use python_hpedockerplugin.Manager.{Message, raised, failure}
use python_hpedockerplugin.Manager.Tracked.{save_vol-Fails}
use python_hpedockerplugin.Manager.Undone.{
  Undone, FailsTo, OnFailure, OnFailure-failure, Quiet-Undone, FailsTo-try_answer,
  FailsTo-try_rollback,
}
use python_hpedockerplugin.Manager.Snapshot.{
  SnapshotArgs, create_snapshot_record, record_steps, record_snapshot, create_backend_snapshot,
  snapshot_on_array, schedule_if_asked, take_snapshot,
}

-- Every record but that of `id` is as it was.
abbrev pub OthersKept : String → Store → Store → Type 0
OthersKept id before now = (other : String) → other ≢ id → lookup other now ≡ lookup other before

module _ (env : Env) (args : SnapshotArgs) (vol snap_vol : Volume) (before : Store) where
  abbrev K : Store → Type 0
  K = OthersKept snap_vol.id before

  create_snapshot_record-Tracked :
      (entry : Volume)
      → entry.id ≡ snap_vol.id
      → Keeps (Tracked env K) (create_snapshot_record env entry)
  unfolding create_snapshot_record compensation
  create_snapshot_record-Tracked entry same =
      Keeps-try _ _ _
        (Keeps-ask_undo env (etcd_write entry) _ _ (λ h. refl)
          (λ h store k other ne.
            ground
              (arith, lookup-insert entry.id other entry store, eq_iff entry.id other, k other ne))
          (λ a h store k other ne.
            ground
              (arith, lookup-remove_key entry.id other store, eq_iff entry.id other, k other ne)))
        (λ e. Keeps-raise _) (λ u. Keeps-pure u)

  record_steps-Fails :
      (name : String) → Fails (Tracked env K) (record_steps env args vol snap_vol name)
  unfolding record_steps
  record_steps-Fails name =
      Fails-bind _ _ (create_snapshot_record-Tracked _ refl) (λ u. save_vol-Fails env _)

  create_backend_snapshot-Tracked : Keeps (Tracked env K) (create_backend_snapshot env vol snap_vol)
  unfolding create_backend_snapshot compensation
  create_backend_snapshot-Tracked =
      Keeps-ask_undo env _ _ _ (λ h. refl) (λ h store k. k) (λ a h store k. k)

  create_backend_snapshot-Quiet : Fails (Quiet env K) (create_backend_snapshot env vol snap_vol)
  unfolding create_backend_snapshot compensation
  create_backend_snapshot-Quiet = ask_undo-Quiet env _ _ _ (λ h. refl)

  after_backend_snapshot :
      (r : Result String) (s : State)
      → OnError (Quiet env K) (r, s)
      → Tracked env K s
      → OnFailure
          (Undone env K)
          (resume r (λ e. pure (failure (raised e))) (record_snapshot env args vol snap_vol) s)
  unfolding record_snapshot ◌>>=◌
  after_backend_snapshot (ok name) s q t =
      (FailsTo-try_rollback env K _ (record_steps-Fails name)).at s t
  after_backend_snapshot (err e) s q t = Quiet-Undone env K s q

  snapshot_on_array-Undone :
      FailsTo (Quiet env K) (Undone env K) (snapshot_on_array env args vol snap_vol)
  unfolding snapshot_on_array ◌>>=◌ reset_undo try_else
  snapshot_on_array-Undone = record {
    at = λ s q.
        let s' = (reset_undo s).1 in
        let made = create_backend_snapshot env vol snap_vol s' in
        after_backend_snapshot made.0 made.1
          (create_backend_snapshot-Quiet.at s' (reset_undo-Quiet env s q.kept))
          (create_backend_snapshot-Tracked.at s' (Keeps-reset_undo env s q));
  }

  schedule_if_asked-Quiet : Keeps (Quiet env K) (schedule_if_asked env args vol)
  unfolding schedule_if_asked
  schedule_if_asked-Quiet = search (keeps_rules, Keeps-plain-Quiet env)

  take_snapshot-FailsTo : FailsTo (Quiet env K) (Undone env K) (take_snapshot env args vol snap_vol)
  unfolding take_snapshot
  take_snapshot-FailsTo =
      FailsTo-try_answer _ _ raised (Quiet-Undone env K) schedule_if_asked-Quiet
        (λ u. snapshot_on_array-Undone)

-- Where taking a snapshot answers with an error, the calls made are followed by exactly the
-- compensating call of each that completed, the newest first, among them the deletion of the
-- snapshot's record if it was written; every other record in etcd is unchanged. (A schedule that was
-- created on the array has no compensating call.)
pub take_snapshot-Undone :
    (env : Env) (args : SnapshotArgs) (vol snap_vol : Volume) (store : Store) (m : Message)
    → (take_snapshot env args vol snap_vol (start store)).0 ≡ ok (failure m)
    → Undone env
        (OthersKept snap_vol.id store)
        (take_snapshot env args vol snap_vol (start store)).1
unfolding compensations
take_snapshot-Undone env args vol snap_vol store m h = OnFailure-failure _ _ _ m h (
    (take_snapshot-FailsTo env args vol snap_vol store).at (start store)
      (record { none_due = refl; kept = λ other ne. refl }))
