-- ===== src/Mount/Attach/Answers.antt =====
-- Actions whose answers, where they are an error text, say that all was undone.
use python_hpedockerplugin.Prelude.{◌≡◌, String, Bool, true, false, if◌then◌else◌}
use python_hpedockerplugin.Effect.{
  Error, Result, ok, err, Env, State, M, pure, continue, ◌>>=◌, resume, try_else,
}
use python_hpedockerplugin.Effect.Keeps.{Keeps}
use python_hpedockerplugin.Effect.Undo.{rollback_ok}
use python_hpedockerplugin.Effect.Splits.{OnEither}
use python_hpedockerplugin.Effect.Tracked.{Tracked, RolledBack, Tracked-rollback}
use python_hpedockerplugin.Manager.{Message, Response, success, failure, mounted, rollback_and_fail}
use python_hpedockerplugin.Mount.Attach.{rollback_mount}

-- The undo list is what is left to undo, whatever etcd holds.
abbrev pub Going : Env → State → Type 0
Going env = Tracked env (λ etcd. Unit)

-- An answer that is an error says that all was undone.
abbrev pub OnAnswer : Env → Result Response × State → Type 0
OnAnswer env (ok success, s) = Unit
OnAnswer env (ok (mounted name mountpoint devicename), s) = Unit
OnAnswer env (ok (failure m), s) = RolledBack env s.calls
OnAnswer env (err e, s) = Unit

pub answered :
    (env : Env) (r : Result Response) (s : State) (m : Message)
    → r ≡ ok (failure m)
    → OnAnswer env (r, s)
    → RolledBack env s.calls
answered env (ok success) s m e h = cc
answered env (ok (mounted name mountpoint devicename)) s m e h = cc
answered env (ok (failure m')) s m e h = h
answered env (err x) s m e h = cc

pub record Answers (env : Env) (m : M Response) : Type 0 where
  pub at : (s : State) → Going env s → OnAnswer env (m s)

module _ (env : Env) where
  pub continue-Answers :
      {A : Type 0} (r : Result A) (f : A → M Response) (s : State)
      → OnEither (Going env) (λ s. Unit) (r, s)
      → ((a : A) → Answers env (f a))
      → OnAnswer env (continue r f s)
  continue-Answers (ok a) f s going after = (after a).at s going
  continue-Answers (err e) f s going after = tt

  pub either :
      {A : Type 0} (r : Result A) (s : State)
      → Going env s
      → OnEither (Going env) (λ s. Unit) (r, s)
  either (ok a) s going = going
  either (err e) s going = tt

  pub Answers-bind :
      {A : Type 0} (m : M A) (f : A → M Response)
      → Keeps (Going env) m
      → ((a : A) → Answers env (f a))
      → Answers env (m >>= f)
  unfolding ◌>>=◌
  Answers-bind m f keeps after = record {
    at = λ s going. continue-Answers (m s).0 f (m s).1 (either _ _ (keeps.at s going)) after;
  }

  pub Answers-if :
      (b : Bool) (m n : M Response)
      → Answers env m
      → Answers env n
      → Answers env (if b then m else n)
  Answers-if true m n am an = am
  Answers-if false m n am an = an

  pub resume-Answers :
      {A : Type 0} (r : Result A) (handler : Error → M Response) (f : A → M Response) (s : State)
      → Going env s
      → ((e : Error) → Answers env (handler e))
      → ((a : A) → Answers env (f a))
      → OnAnswer env (resume r handler f s)
  resume-Answers (ok a) handler f s going failed after = (after a).at s going
  resume-Answers (err e) handler f s going failed after = (failed e).at s going

  pub Answers-try :
      {A : Type 0} (m : M A) (handler : Error → M Response) (f : A → M Response)
      → Keeps (Going env) m
      → ((e : Error) → Answers env (handler e))
      → ((a : A) → Answers env (f a))
      → Answers env (try_else m handler f)
  unfolding try_else
  Answers-try m handler f keeps failed after = record {
    at = λ s going. resume-Answers (m s).0 handler f (m s).1 (keeps.at s going) failed after;
  }

  pub rollback_mount-Answers : (e : Error) → Answers env (rollback_mount env e)
  unfolding rollback_mount ◌>>=◌
  rollback_mount-Answers e = record {
    at = λ s going. rw (rollback_ok env s) (Tracked-rollback env s going);
  }

  pub rollback_and_fail-Answers : (e : Error) → Answers env (rollback_and_fail env e)
  unfolding rollback_and_fail ◌>>=◌
  rollback_and_fail-Answers e = record {
    at = λ s going. rw (rollback_ok env s) (Tracked-rollback env s going);
  }

  pub mounted-Answers : (name dir path : String) → Answers env (pure (mounted name dir path))
  unfolding ◌>>=◌
  mounted-Answers name dir path = record { at = λ s going. tt }
