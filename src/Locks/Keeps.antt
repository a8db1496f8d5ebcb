-- ===== src/Locks/Keeps.antt =====
-- An operation under a lock keeps what it keeps without, if locking and unlocking keep it.
use python_hpedockerplugin.Effect.{Call, lock_failed, Result, ok, err, Env, State, M, call}
use python_hpedockerplugin.Effect.Keeps.{Keeps}
use python_hpedockerplugin.Locks.{release, under_lock, catch_lock_failed, synchronized}

module _ {A : Type 0} {P : State → Type 0} (env : Env) (lock unlock : Call) (f : M A)
    (locking : Keeps P (call env lock)) (unlocking : Keeps P (call env unlock))
    (inside : Keeps P f) where
  release-Keeps : (r : Result A) (s : State) → P s → P (release env unlock (r, s)).1
  unfolding release
  release-Keeps r s h = unlocking.at s h

  under_lock-Keeps :
      (fallback : A) (u : Result (Unit {0})) (s : State)
      → P s
      → P (under_lock env unlock fallback f (u, s)).1
  unfolding under_lock
  under_lock-Keeps fallback (ok u) s h =
      release-Keeps (catch_lock_failed fallback (f s).0) (f s).1 (inside.at s h)
  under_lock-Keeps fallback (err (lock_failed name)) s h = h
  under_lock-Keeps fallback (err e) s h = h

  pub Keeps-synchronized : (fallback : A) → Keeps P (synchronized env lock unlock fallback f)
  unfolding synchronized
  Keeps-synchronized fallback = record {
    at = λ s h. under_lock-Keeps fallback (call env lock s).0 (call env lock s).1 (locking.at s h);
  }
