-- ===== src/Mount/Wait.antt =====
-- The wait for another node's unmount is bounded.
use python_hpedockerplugin.Prelude.{
  ℕ, zero, suc, ◌+◌, ◌≤◌, String, ◌≡◌, Bool, true, false, some, [], ◌∷◌, is_some, if◌then◌else◌,
  arith,
}
use python_hpedockerplugin.Volume.{Volume}
use python_hpedockerplugin.Effect.{
  sleep, History, Result, ok, err, Env, State, M, pure, or_key_error, continue, ◌>>=◌, call,
}
use python_hpedockerplugin.Etcd.{get_vol_by_id}
use python_hpedockerplugin.Mount.{wait_for_unmount, wait_for_graceful_vol_unmount}

-- How often a history slept.
unfoldable pub sleeps : History → ℕ
sleeps [] = 0
sleeps (sleep ∷ h) = suc (sleeps h)
sleeps (c ∷ h) = sleeps h

-- An action that sleeps at most `n` times.
record Sleeps (n : ℕ) {A : Type 0} (m : M A) : Type 0 where
  at : (s : State) → sleeps (m s).1.calls ≤ n + sleeps s.calls

Sleeps-pure : {A : Type 0} (n : ℕ) (a : A) → Sleeps n (pure a)
unfolding ◌>>=◌
Sleeps-pure n a = record { at = λ s. omega arith }

Sleeps-if :
    {A : Type 0} (n : ℕ) (b : Bool) (m k : M A)
    → Sleeps n m
    → Sleeps n k
    → Sleeps n (if b then m else k)
Sleeps-if n true m k sm sk = sm
Sleeps-if n false m k sm sk = sk

continue-sleeps :
    {A B : Type 0} (n a b : ℕ) (r : Result A) (f : A → M B) (s t : State)
    → a + b ≤ n
    → sleeps s.calls ≤ a + sleeps t.calls
    → ((x : A) → Sleeps b (f x))
    → sleeps (continue r f s).1.calls ≤ n + sleeps t.calls
continue-sleeps n a b (ok x) f s t sum first after = omega (arith, (after x).at s)
continue-sleeps n a b (err e) f s t sum first after = omega arith

Sleeps-bind :
    {A B : Type 0} (n a b : ℕ) (m : M A) (f : A → M B)
    → a + b ≤ n
    → Sleeps a m
    → ((x : A) → Sleeps b (f x))
    → Sleeps n (m >>= f)
unfolding ◌>>=◌
Sleeps-bind n a b m f sum first after = record {
  at = λ s. continue-sleeps n a b (m s).0 f (m s).1 s sum (first.at s) after;
}

module _ (env : Env) where
  sleep-Sleeps : Sleeps 1 (call env sleep)
  unfolding call sleeps
  sleep-Sleeps = record { at = λ s. ground arith }

  get_vol_by_id-Sleeps : (id : String) → Sleeps 0 (get_vol_by_id env id)
  unfolding call sleeps get_vol_by_id ◌>>=◌
  get_vol_by_id-Sleeps id = record { at = λ s. ground arith }

  wait_for_unmount-Sleeps :
      (rounds : ℕ) (id : String) → Sleeps rounds (wait_for_unmount env rounds id)
  unfolding wait_for_unmount
  wait_for_unmount-Sleeps zero id = Sleeps-pure 0 false
  wait_for_unmount-Sleeps (suc rounds) id =
      Sleeps-bind (suc rounds) 1 rounds _ _ (omega arith) sleep-Sleeps λ u.
        Sleeps-bind rounds 0 rounds _ _ (omega arith) (get_vol_by_id-Sleeps id) λ vol.
          Sleeps-if rounds (is_some vol.node_mount_info) _ _ (wait_for_unmount-Sleeps rounds id)
            (Sleeps-pure rounds true)

-- The wait for another node to unmount a volume ends after at most as many rounds of one second as
-- the volume's `mount_conflict_delay` says, whatever the other node writes meanwhile.
pub wait_for_graceful_vol_unmount-sleeps :
    (env : Env) (vol : Volume) (delay : ℕ) (s : State)
    → vol.mount_conflict_delay ≡ some delay
    → sleeps (wait_for_graceful_vol_unmount env vol s).1.calls ≤ delay + sleeps s.calls
unfolding wait_for_graceful_vol_unmount or_key_error ◌>>=◌
wait_for_graceful_vol_unmount-sleeps env vol delay s given =
    rw given ((wait_for_unmount-Sleeps env delay vol.id).at s)
