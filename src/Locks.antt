-- ===== src/Locks.antt =====
-- synchronization.py and the class EtcdLock of etcdutil.py: an operation under a named lock.
pub mod Keeps
pub mod Release
use python_hpedockerplugin.Prelude.{String}
use python_hpedockerplugin.Effect.{
  Call, lock_volume, unlock_volume, lock_rcg, unlock_rcg, Error, lock_failed, unlock_failed, Result,
  ok, err, Env, State, M, ◌>>=◌, call,
}

module _ {A : Type 0} where
  -- `except exception.HPEPluginLockFailed`: the text of an empty error is returned in place of the
  -- result, also where the failure comes from a lock inside of the operation.
  unfoldable pub catch_lock_failed : A → Result A → Result A
  catch_lock_failed fallback (ok a) = ok a
  catch_lock_failed fallback (err (lock_failed name)) = ok fallback
  catch_lock_failed fallback (err e) = err e

  -- The `finally` clause: a failure to unlock is ignored, any other exception replaces the result.
  unfoldable pub after_unlock : Result A → Result (Unit {0}) → Result A
  after_unlock r (ok u) = r
  after_unlock r (err (unlock_failed name)) = r
  after_unlock r (err e) = err e

  unfoldable pub release : Env → Call → Result A × State → Result A × State
  unfolding after_unlock
  release env unlock (r, s) = let (u, s') = call env unlock s in (after_unlock r u, s')

  unfoldable pub under_lock :
      Env → (unlock : Call) → A → M A → Result (Unit {0}) × State → Result A × State
  unfolding release catch_lock_failed
  under_lock env unlock fallback f (ok u, s) =
      let (r, s') = f s in release env unlock (catch_lock_failed fallback r, s')
  under_lock env unlock fallback f (err (lock_failed name), s) = (ok fallback, s)
  under_lock env unlock fallback f (err e, s) = (err e, s)

  unfoldable pub synchronized : Env → (lock unlock : Call) → A → M A → M A
  unfolding under_lock
  synchronized env lock unlock fallback f s = under_lock env unlock fallback f (call env lock s)

  abbrev pub synchronized_volume : Env → String → A → M A → M A
  synchronized_volume env name = synchronized env (lock_volume name) (unlock_volume name)

  abbrev pub synchronized_rcg : Env → String → A → M A → M A
  synchronized_rcg env name = synchronized env (lock_rcg name) (unlock_rcg name)
