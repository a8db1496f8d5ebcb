-- ===== src/File/Returns.antt =====
-- What holds where an action of file_manager.py returns.
use python_hpedockerplugin.Prelude.{
  ◌≡◌, refl, sym, subst, Bool, true, false, Option, none, some, if◌then◌else◌,
}
use python_hpedockerplugin.File.{
  Call, Error, Result, err, ok, State, Env, M, pure, raise, gets, continue, recover, ◌>>=◌, ◌>>◌,
  try_except, call, made, effect, answer,
}

pub record Returns {A : Type 0} (P : A → State → Type 0) (m : M A) : Type 0 where
  pub at : (s : State) (a : A) → (m s).0 ≡ ok a → P a (m s).1

module _ {A : Type 0} {P : A → State → Type 0} where
  pub Returns-pure : (a : A) → ((s : State) → P a s) → Returns P (pure a)
  unfolding pure
  Returns-pure a h = record { at = λ s b e. subst (λ x. P x s) (cc e) (h s) }

  pub Returns-raise : (e : Error) → Returns P (raise e)
  unfolding raise
  Returns-raise e = record { at = λ s a f. cc f }

  pub Returns-if :
      (test : Bool) (m n : M A)
      → (test ≡ true → Returns P m)
      → (test ≡ false → Returns P n)
      → Returns P (if test then m else n)
  Returns-if true m n on_true on_false = on_true refl
  Returns-if false m n on_true on_false = on_false refl

module _ {A B : Type 0} {P : B → State → Type 0} where
  continue-Returns :
      (r : Result A) (f : A → M B) (s : State) (b : B)
      → ((a : A) → r ≡ ok a → Returns P (f a))
      → (continue r f s).0 ≡ ok b
      → P b (continue r f s).1
  continue-Returns (ok a) f s b after e = (after a refl).at s b e
  continue-Returns (err x) f s b after e = cc e

  pub Returns-bind : (m : M A) (f : A → M B) → ((a : A) → Returns P (f a)) → Returns P (m >>= f)
  unfolding ◌>>=◌
  Returns-bind m f after = record {
    at = λ s b e. continue-Returns (m s).0 f (m s).1 b (λ a same. after a) e;
  }

  -- With what is known of the first value.
  pub Returns-known :
      (Q : A → Type 0) (m : M A) (f : A → M B)
      → Returns (λ a s. Q a) m
      → ((a : A) → Q a → Returns P (f a))
      → Returns P (m >>= f)
  unfolding ◌>>=◌
  Returns-known Q m f first after = record {
    at = λ s b e. continue-Returns (m s).0 f (m s).1 b (λ a same. after a (first.at s a same)) e;
  }

answer_ok :
    (c : Call) (o : Option Error) (s : State) (u : Unit {0})
    → (answer c o s).0 ≡ ok u
    → (answer c o s).1 ≡ made c (effect c s)
answer_ok c (some x) s u e = cc e
answer_ok c none s u e = refl

-- A call that did not raise had its effect.
pub Returns-call :
    (env : Env) (c : Call) (P : State → Type 0)
    → ((s : State) → P (made c (effect c s)))
    → Returns (λ u. P) (call env c)
unfolding call
Returns-call env c P h = record {
  at = λ s u e. subst P (sym (answer_ok c (env.outcome c s.calls) s u e)) (h s);
}

-- The last call before a value is returned.
pub Returns-call-pure :
    {A : Type 0} (env : Env) (c : Call) (a : A) (P : A → State → Type 0)
    → ((s : State) → P a (made c (effect c s)))
    → Returns P (call env c >> pure a)
unfolding call ◌>>=◌ pure
Returns-call-pure {A} env c a P h = record { at = λ s b e. last s b (env.outcome c s.calls) e }
  where
    last :
        (s : State) (b : A) (o : Option Error)
        → (continue (answer c o s).0 (λ _. pure a) (answer c o s).1).0 ≡ ok b
        → P b (continue (answer c o s).0 (λ _. pure a) (answer c o s).1).1
    last s b (some x) e = cc e
    last s b none e = subst (λ x. P x (made c (effect c s))) (cc e) (h s)

pub Returns-then_pure :
    {A B : Type 0} {P : State → Type 0} (m : M A) (b : B)
    → Returns (λ a. P) m
    → Returns (λ b. P) (m >> pure b)
unfolding ◌>>=◌ pure
Returns-then_pure {A} {B} {P} m b first = record {
  at = λ s c e. last (m s).0 (m s).1 (λ a same. first.at s a same) c e;
}
  where
    last :
        (r : Result A) (s : State)
        → ((a : A) → r ≡ ok a → P s)
        → (c : B) → (continue r (λ _. pure b) s).0 ≡ ok c
        → P (continue r (λ _. pure b) s).1
    last (ok a) s h c e = h a refl
    last (err x) s h c e = cc e

pub Returns-try :
    {A : Type 0} {P : A → State → Type 0} (m : M A) (handler : Error → M A)
    → Returns P m
    → ((e : Error) → Returns P (handler e))
    → Returns P (try_except m handler)
unfolding try_except
Returns-try {A} {P} m handler first after = record {
  at = λ s a e. recovered (m s).0 (m s).1 a (first.at s) e;
}
  where
    recovered :
        (r : Result A) (s : State) (a : A)
        → ((x : A) → r ≡ ok x → P x s)
        → (recover r handler s).0 ≡ ok a
        → P a (recover r handler s).1
    recovered (ok x) s a h e = h a e
    recovered (err x) s a h e = (after x).at s a e

pub Returns-gets :
    {A : Type 0} (P : A → State → Type 0) (f : State → A)
    → ((s : State) → P (f s) s)
    → Returns P (gets f)
unfolding gets
Returns-gets P f h = record { at = λ s a e. subst (λ x. P x s) (cc e) (h s) }
