-- ===== src/File/Create/Tries.antt =====
-- The bound on the names that are tried for a new group.
use python_hpedockerplugin.Prelude.{ℕ, zero, suc, ◌≤◌, ◌≡◌, ◌≢◌, refl, true, String, List, arith}
use python_hpedockerplugin.File.{
  Share, Error, fpg_already_exists, Result, ok, err, Env, State, M, pure, ◌>>=◌, ◌>>◌, continue,
  recover, try_except, raise,
}
use python_hpedockerplugin.File.Commands.{Config}
use python_hpedockerplugin.File.Create.{make_fpg, next_number, retry, make_default}

continue_same :
    {A B : Type 0} (r : Result A) (f g : A → M B) (s : State)
    → ((a : A) → (f a s).0 ≢ err fpg_already_exists → g a s ≡ f a s)
    → (continue r f s).0 ≢ err fpg_already_exists
    → continue r g s ≡ continue r f s
continue_same (ok a) f g s h other = h a other
continue_same (err e) f g s h other = refl

recover_same :
    {A : Type 0} (r : Result A) (f g : Error → M A) (s : State)
    → ((e : Error) → (f e s).0 ≢ err fpg_already_exists → g e s ≡ f e s)
    → (recover r f s).0 ≢ err fpg_already_exists
    → recover r g s ≡ recover r f s
recover_same (ok a) f g s h other = refl
recover_same (err e) f g s h other = h e other

bind_same :
    {A B : Type 0} (m : M A) (f g : A → M B) (s : State)
    → ((a : A) (t : State) → (f a t).0 ≢ err fpg_already_exists → g a t ≡ f a t)
    → ((m >>= f) s).0 ≢ err fpg_already_exists
    → (m >>= g) s ≡ (m >>= f) s
unfolding ◌>>=◌
bind_same m f g s h other = continue_same (m s).0 f g (m s).1 (λ a. h a (m s).1) other

try_except_same :
    {A : Type 0} (m : M A) (f g : Error → M A) (s : State)
    → ((e : Error) (t : State) → (f e t).0 ≢ err fpg_already_exists → g e t ≡ f e t)
    → (try_except m f s).0 ≢ err fpg_already_exists
    → try_except m g s ≡ try_except m f s
unfolding try_except
try_except_same m f g s h other = recover_same (m s).0 f g (m s).1 (λ e. h e (m s).1) other

module _ (env : Env) (config : Config) (pick : String → List String → String) (share : Share)
    (fpg_name vfs_name : ℕ → String) where
  retry_same :
      (again more : M (String × String)) (e : Error) (s : State)
      → ((again s).0 ≢ err fpg_already_exists → more s ≡ again s)
      → (retry env config pick share again e s).0 ≢ err fpg_already_exists
      → retry env config pick share more e s ≡ retry env config pick share again e s
  unfolding retry
  retry_same again more fpg_already_exists s h other = h other
  retry_same again more e s h other = refl

  -- More tries change nothing, once a number of tries ends with a name or with another error than
  -- that all names were taken.
  pub make_default-le :
      (tries more : ℕ) (s : State)
      → tries ≤ more
      → (make_default env config pick share fpg_name vfs_name tries s).0 ≢ err fpg_already_exists
      → make_default env config pick share fpg_name vfs_name more s
        ≡ make_default env config pick share fpg_name vfs_name tries s
  unfolding make_default raise
  make_default-le zero more s enough other = absurd (other refl)
  make_default-le (suc tries) zero s enough other = absurd (omega arith)
  make_default-le (suc tries) (suc more) s enough other =
      let fewer = make_default env config pick share fpg_name vfs_name tries in
      let again = make_default env config pick share fpg_name vfs_name more in
      bind_same (next_number env config pick share) _ _ s
        (λ n t.
          try_except_same
            (make_fpg env config pick share (fpg_name n) true >> pure (fpg_name n, vfs_name n))
            (retry env config pick share fewer) (retry env config pick share again) t
            (λ e u. retry_same fewer again e u (make_default-le tries more u (omega arith))))
        other
