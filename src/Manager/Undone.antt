-- ===== src/Manager/Undone.antt =====
-- What is left behind when an operation of volume_manager.py answers with an error: its work is
-- undone. One rule for each way in which the operations are built.
use python_hpedockerplugin.Prelude.{String, ◌≡◌, sym, subst, ◌∷◌, arith}
use python_hpedockerplugin.Effect.{
  unlock_volume, lock_volume, Error, lock_failed, unlock_failed, Result, ok, err, Env, History,
  Store, State, M, pure, continue, ◌>>=◌, resume, try_else, call,
}
use python_hpedockerplugin.Effect.Keeps.{Keeps, Fails, OnError}
use python_hpedockerplugin.Effect.Undo.{rollback, rollback_ok}
use python_hpedockerplugin.Effect.Tracked.{
  Tracked, Quiet, RolledBack, Quiet-RolledBack, Tracked-rollback, rollback-kept,
}
use python_hpedockerplugin.Locks.{
  after_unlock, catch_lock_failed, under_lock, synchronized, synchronized_volume,
}
use python_hpedockerplugin.Manager.{Message, Response, success, failure, mounted, rollback_and_fail}

-- The calls are those of a rollback, and `K` holds of etcd.
pub record Undone (env : Env) (K : Store → Type 0) (s : State) : Type 0 where
  pub rolled_back : RolledBack env s.calls
  pub kept : K s.etcd

-- The same, and then the lock is released.
pub record Released (env : Env) (K : Store → Type 0) (volname : String) (s : State) : Type 0 where
  pub inside : History
  pub released : s.calls ≡ unlock_volume volname ∷ inside
  pub rolled_back : RolledBack env inside
  pub kept : K s.etcd

abbrev pub OnFailure : (State → Type 0) → Result Response × State → Type 0
OnFailure P (ok success, s) = Unit
OnFailure P (ok (mounted name mountpoint devicename), s) = Unit
OnFailure P (ok (failure m), s) = P s
OnFailure P (err e, s) = P s

pub OnFailure-failure :
    (P : State → Type 0) (r : Result Response) (s : State) (m : Message)
    → r ≡ ok (failure m)
    → OnFailure P (r, s)
    → P s
OnFailure-failure P (ok success) s m e u = cc
OnFailure-failure P (ok (mounted name mountpoint devicename)) s m e u = cc
OnFailure-failure P (ok (failure m')) s m e u = u
OnFailure-failure P (err x) s m e u = cc

-- From `Q`, where the action answers with an error or raises, `P` holds.
pub record FailsTo (Q P : State → Type 0) (m : M Response) : Type 0 where
  pub at : (s : State) → Q s → OnFailure P (m s)

module _ (env : Env) (K : Store → Type 0) where
  pub Quiet-Undone : (s : State) → Quiet env K s → Undone env K s
  Quiet-Undone s q = record { rolled_back = Quiet-RolledBack env s q; kept = q.kept }

  pub rollback-Undone : (s : State) → Tracked env K s → Undone env K (rollback env s).1
  rollback-Undone s t = record {
    rolled_back = Tracked-rollback env s t;
    kept = rollback-kept env s t;
  }

  rollback_and_fail-OnFailure :
      (e : Error) (s : State)
      → Tracked env K s
      → OnFailure (Undone env K) (rollback_and_fail env e s)
  unfolding rollback_and_fail ◌>>=◌
  rollback_and_fail-OnFailure e s t = rw (rollback_ok env s) (rollback-Undone s t)

  module _ {A : Type 0} where
    try_rollback :
        (r : Result A) (s : State)
        → OnError (Tracked env K) (r, s)
        → OnFailure (Undone env K) (resume r (rollback_and_fail env) (λ (a : A). pure success) s)
    unfolding rollback_and_fail ◌>>=◌
    try_rollback (ok a) s t = tt
    try_rollback (err e) s t = rollback_and_fail-OnFailure e s t

    -- `try: m` / `except: rollback, answer the error` / `else: answer success`
    pub FailsTo-try_rollback :
        (m : M A)
        → Fails (Tracked env K) m
        → FailsTo
            (Tracked env K)
            (Undone env K)
            (try_else m (rollback_and_fail env) (λ (a : A). pure success))
    unfolding try_else
    FailsTo-try_rollback m fails = record {
      at = λ s t. try_rollback (m s).0 (m s).1 (fails.at s t);
    }

module _ {A : Type 0} {Q P : State → Type 0} where
  continue-FailsTo :
      (r : Result A) (f : A → M Response) (s : State)
      → ((s : State) → Q s → P s)
      → ((a : A) → FailsTo Q P (f a))
      → Q s
      → OnFailure P (continue r f s)
  continue-FailsTo (ok a) f s weaken after q = (after a).at s q
  continue-FailsTo (err e) f s weaken after q = weaken s q

  pub FailsTo-bind :
      (m : M A) (f : A → M Response)
      → ((s : State) → Q s → P s)
      → Keeps Q m
      → ((a : A) → FailsTo Q P (f a))
      → FailsTo Q P (m >>= f)
  unfolding ◌>>=◌
  FailsTo-bind m f weaken keeps after = record {
    at = λ s q. continue-FailsTo (m s).0 f (m s).1 weaken after (keeps.at s q);
  }

  try_answer :
      (r : Result A) (f : A → M Response) (text : Error → Message) (s : State)
      → ((s : State) → Q s → P s)
      → ((a : A) → FailsTo Q P (f a))
      → Q s
      → OnFailure P (resume r (λ e. pure (failure (text e))) f s)
  unfolding ◌>>=◌
  try_answer (ok a) f text s weaken after q = (after a).at s q
  try_answer (err e) f text s weaken after q = weaken s q

  -- `try: m` / `except: answer the error` / `else: f`
  pub FailsTo-try_answer :
      (m : M A) (f : A → M Response) (text : Error → Message)
      → ((s : State) → Q s → P s)
      → Keeps Q m
      → ((a : A) → FailsTo Q P (f a))
      → FailsTo Q P (try_else m (λ e. pure (failure (text e))) f)
  unfolding try_else
  FailsTo-try_answer m f text weaken keeps after = record {
    at = λ s q. try_answer (m s).0 f text (m s).1 weaken after (keeps.at s q);
  }

-- An operation under its volume's lock answers with an error only if the lock was acquired; then
-- the operation itself did so, and the lock is released after all else.
pub record FailedInside (env : Env) (volname : String) (body : M Response) (m : Message) (s : State)
    : Type 0 where
  pub answered : (body (call env (lock_volume volname) s).1).0 ≡ ok (failure m)
  pub released :
      (synchronized_volume env volname success body s).1.calls
      ≡ unlock_volume volname ∷ (body (call env (lock_volume volname) s).1).1.calls
  pub etcd :
      (synchronized_volume env volname success body s).1.etcd
      ≡ (body (call env (lock_volume volname) s).1).1.etcd

module _ (env : Env) (volname : String) where
  after_unlock_failure :
      (r : Result Response) (u : Result (Unit {0})) (m : Message)
      → after_unlock r u ≡ ok (failure m)
      → r ≡ ok (failure m)
  unfolding after_unlock
  after_unlock_failure r (ok u) m h = h
  after_unlock_failure r (err (unlock_failed name)) m h = h
  after_unlock_failure r (err e) m h = cc

  catch_lock_failed_failure :
      (r : Result Response) (m : Message)
      → catch_lock_failed success r ≡ ok (failure m)
      → r ≡ ok (failure m)
  unfolding catch_lock_failed
  catch_lock_failed_failure (ok a) m h = h
  catch_lock_failed_failure (err (lock_failed name)) m h = cc
  catch_lock_failed_failure (err e) m h = cc

  calls-unlock :
      (s : State) → (call env (unlock_volume volname) s).1.calls ≡ unlock_volume volname ∷ s.calls
  unfolding call
  calls-unlock s = ground arith

  etcd-unlock : (s : State) → (call env (unlock_volume volname) s).1.etcd ≡ s.etcd
  unfolding call
  etcd-unlock s = ground arith

  -- What `under_lock` says of a failure inside.
  abbrev InsideOf : M Response → Result Response × State → State → Message → Type 0
  InsideOf body final s m =
      ((body s).0 ≡ ok (failure m))
      × (final.1.calls ≡ unlock_volume volname ∷ (body s).1.calls)
      × (final.1.etcd ≡ (body s).1.etcd)

  under_lock_failure :
      (body : M Response) (u : Result (Unit {0})) (s : State) (m : Message)
      → (under_lock env (unlock_volume volname) success body (u, s)).0 ≡ ok (failure m)
      → InsideOf body (under_lock env (unlock_volume volname) success body (u, s)) s m
  unfolding under_lock
  under_lock_failure body (ok u) s m h = (
    catch_lock_failed_failure (body s).0 m (after_unlock_failure _ _ m h),
    calls-unlock (body s).1,
    etcd-unlock (body s).1,
  )
  under_lock_failure body (err (lock_failed name)) s m h = cc
  under_lock_failure body (err e) s m h = cc

  pub synchronized_failure :
      (body : M Response) (s : State) (m : Message)
      → (synchronized_volume env volname success body s).0 ≡ ok (failure m)
      → FailedInside env volname body m s
  unfolding synchronized
  synchronized_failure body s m h =
      let locked = call env (lock_volume volname) s in
      let inside = under_lock_failure body locked.0 locked.1 m h in
      record { answered = inside.0; released = inside.1; etcd = inside.2 }

  -- So what the body leaves behind when it fails stands behind the release of the lock.
  pub Released-synchronized :
      {Q : State → Type 0} (K : Store → Type 0) (body : M Response) (s : State) (m : Message)
      → FailsTo Q (Undone env K) body
      → Q (call env (lock_volume volname) s).1
      → (synchronized_volume env volname success body s).0 ≡ ok (failure m)
      → Released env K volname (synchronized_volume env volname success body s).1
  Released-synchronized K body s m fails q h =
      let f = synchronized_failure body s m h in
      let locked = (call env (lock_volume volname) s).1 in
      let undone =
        OnFailure-failure (Undone env K) (body locked).0 (body locked).1 m f.answered
          (fails.at locked q) in
      record {
        inside = (body locked).1.calls;
        released = f.released;
        rolled_back = undone.rolled_back;
        kept = subst K (sym f.etcd) undone.kept;
      }
