-- ===== src/Locks/Release.antt =====
-- A lock that was acquired is released, and without the lock nothing is done.
use python_hpedockerplugin.Prelude.{String, ◌≡◌, refl, ◌∷◌, none, some, arith}
use python_hpedockerplugin.Effect.{Call, lock_failed, Result, ok, err, Env, State, M, call}
use python_hpedockerplugin.Locks.{synchronized, under_lock}

call-calls : (env : Env) (c : Call) (s : State) → (call env c s).1.calls ≡ c ∷ s.calls
unfolding call
call-calls env c s = ground arith

acquired :
    (env : Env) (lock : Call) (s : State)
    → env.outcome lock s.calls ≡ none
    → (call env lock s).0 ≡ ok tt
unfolding call
acquired env lock s h = rw h refl

refused :
    (env : Env) (lock : Call) (s : State) (name : String)
    → env.outcome lock s.calls ≡ some (lock_failed name)
    → call env lock s ≡ (err (lock_failed name), record s { calls = lock ∷ s.calls })
unfolding call
refused env lock s name h = rw h refl

under_lock-released :
    {A : Type 0} (env : Env) (unlock : Call) (fallback : A) (body : M A) (u : Result (Unit {0}))
    (s : State)
    → u ≡ ok tt
    → (under_lock env unlock fallback body (u, s)).1.calls ≡ unlock ∷ (body s).1.calls
unfolding under_lock
under_lock-released env unlock fallback body (ok u) s h = call-calls env unlock (body s).1
under_lock-released env unlock fallback body (err e) s h = cc

-- Under a lock that was acquired the operation runs, and the release of the lock is the last call,
-- however the operation ends. Where the lock is held by another, the operation does not run: the
-- fallback is answered, and trying the lock is the only call.
pub synchronized-release :
    {A : Type 0} (env : Env) (lock unlock : Call) (fallback : A) (body : M A) (s : State)
    → (env.outcome lock s.calls ≡ none
        → (synchronized env lock unlock fallback body s).1.calls
          ≡ unlock ∷ (body (call env lock s).1).1.calls)
      × ((name : String)
          → env.outcome lock s.calls ≡ some (lock_failed name)
          → synchronized env lock unlock fallback body s
            ≡ (ok fallback, record s { calls = lock ∷ s.calls }))
unfolding synchronized under_lock
synchronized-release env lock unlock fallback body s = (
  λ h.
      under_lock-released env unlock fallback body (call env lock s).0 (call env lock s).1
        (acquired env lock s h),
  λ name h. rw (refused env lock s name h) refl,
)
