-- ===== src/File/Keeps.antt =====
-- What an action of file_manager.py keeps, whether it returns or raises.
use python_hpedockerplugin.Prelude.{
  String, ◌≡◌, refl, Bool, true, false, Option, none, some, if◌then◌else◌,
}
use python_hpedockerplugin.File.{
  Call, lock, unlock, Error, Result, err, ok, State, Env, M, pure, raise, gets, continue, finish,
  recover, ◌>>=◌, try_except, with_lock, call, made, effect, answer,
}

pub record Keeps {A : Type 0} (Q : State → Type 0) (m : M A) : Type 0 where
  pub at : (s : State) → Q s → Q (m s).1

-- A call that keeps `Q`, whether it has its effect or raises.
pub record IsHarmless (Q : State → Type 0) (c : Call) : Type 0 where
  pub done : (s : State) → Q s → Q (made c (effect c s))
  pub refused : (s : State) → Q s → Q (made c s)

module _ {Q : State → Type 0} where
  pub Keeps-pure : {A : Type 0} (a : A) → Keeps Q (pure a)
  unfolding pure
  Keeps-pure a = record { at = λ s q. q }

  pub Keeps-raise : {A : Type 0} (e : Error) → Keeps Q (raise {A = A} e)
  unfolding raise
  Keeps-raise e = record { at = λ s q. q }

  pub Keeps-gets : {A : Type 0} (f : State → A) → Keeps Q (gets f)
  unfolding gets
  Keeps-gets f = record { at = λ s q. q }

  pub Keeps-if :
      {A : Type 0} (b : Bool) (m n : M A)
      → (b ≡ true → Keeps Q m)
      → (b ≡ false → Keeps Q n)
      → Keeps Q (if b then m else n)
  Keeps-if true m n on_true on_false = on_true refl
  Keeps-if false m n on_true on_false = on_false refl

  answered : (c : Call) (o : Option Error) (s : State) → IsHarmless Q c → Q s → Q (answer c o s).1
  answered c (some e) s h q = h.refused s q
  answered c none s h q = h.done s q

  pub Keeps-call : (env : Env) (c : Call) → IsHarmless Q c → Keeps Q (call env c)
  unfolding call
  Keeps-call env c h = record { at = λ s q. answered c (env.outcome c s.calls) s h q }

  continued :
      {A B : Type 0} (R : A → Type 0) (r : Result A) (f : A → M B) (s : State)
      → Q s
      → ((a : A) → r ≡ ok a → R a)
      → ((a : A) → R a → Keeps Q (f a))
      → Q (continue r f s).1
  continued R (ok a) f s q known after = (after a (known a refl)).at s q
  continued R (err e) f s q known after = q

  -- With what is known of a value that is returned.
  pub Keeps-known :
      {A B : Type 0} (R : A → Type 0) (m : M A) (f : A → M B)
      → Keeps Q m
      → ((s : State) (a : A) → Q s → (m s).0 ≡ ok a → R a)
      → ((a : A) → R a → Keeps Q (f a))
      → Keeps Q (m >>= f)
  unfolding ◌>>=◌
  Keeps-known R m f first known after = record {
    at = λ s q. continued R (m s).0 f (m s).1 (first.at s q) (λ a e. known s a q e) after;
  }

  pub Keeps-bind :
      {A B : Type 0} (m : M A) (f : A → M B)
      → Keeps Q m
      → ((a : A) → Keeps Q (f a))
      → Keeps Q (m >>= f)
  Keeps-bind m f first after =
      Keeps-known (λ a. Unit {0}) m f first (λ s a q e. tt) (λ a u. after a)

  recovered :
      {A : Type 0} (r : Result A) (handler : Error → M A) (s : State)
      → Q s
      → ((e : Error) → Keeps Q (handler e))
      → Q (recover r handler s).1
  recovered (ok a) handler s q after = q
  recovered (err e) handler s q after = (after e).at s q

  pub Keeps-try :
      {A : Type 0} (m : M A) (handler : Error → M A)
      → Keeps Q m
      → ((e : Error) → Keeps Q (handler e))
      → Keeps Q (try_except m handler)
  unfolding try_except
  Keeps-try m handler first after = record {
    at = λ s q. recovered (m s).0 handler (m s).1 (first.at s q) after;
  }

  finished :
      {A : Type 0} (r : Result A) (o : Option Error) (name : String) (s : State)
      → IsHarmless Q (unlock name)
      → Q s
      → Q (finish r (answer (unlock name) o) s).1
  finished r (some e) name s h q = h.refused s q
  finished r none name s h q = h.done s q

  entered :
      {A : Type 0} (o : Option Error) (env : Env) (name : String) (m : M A) (s : State)
      → IsHarmless Q (lock name)
      → IsHarmless Q (unlock name)
      → Keeps Q m
      → Q s
      → Q
          (continue
            (answer (lock name) o s).0
            (λ u t. finish (m t).0 (call env (unlock name)) (m t).1)
            (answer (lock name) o s).1).1
  unfolding call
  entered (some e) env name m s locks unlocks inside q = locks.refused s q
  entered none env name m s locks unlocks inside q =
      let t = made (lock name) s in
      finished (m t).0 (env.outcome (unlock name) (m t).1.calls) name (m t).1 unlocks
        (inside.at t (locks.done s q))

  pub Keeps-with_lock :
      {A : Type 0} (env : Env) (name : String) (m : M A)
      → IsHarmless Q (lock name)
      → IsHarmless Q (unlock name)
      → Keeps Q m
      → Keeps Q (with_lock env name m)
  unfolding with_lock ◌>>=◌ call
  Keeps-with_lock env name m locks unlocks inside = record {
    at = λ s q. entered (env.outcome (lock name) s.calls) env name m s locks unlocks inside q;
  }
