-- ===== src/Effect/Keeps.antt =====
-- Invariants of actions: what holds before an action holds after it (Keeps), or holds where it
-- raises (Fails). One rule for each way to build an action.
use python_hpedockerplugin.Prelude.{String, Option, none, some, Bool, true, false, if◌then◌else◌}
use python_hpedockerplugin.Effect.{
  Error, key_error, or_key_error, Result, ok, err, State, M, pure, raise, gets, continue, ◌>>=◌,
  resume, try_else,
}

pub record Keeps {A : Type 0} (P : State → Type 0) (m : M A) : Type 0 where
  pub at : (s : State) → P s → P (m s).1

abbrev pub OnError : {A : Type 0} → (State → Type 0) → Result A × State → Type 0
OnError P (ok a, s) = Unit
OnError P (err e, s) = P s

pub record Fails {A : Type 0} (P : State → Type 0) (m : M A) : Type 0 where
  pub at : (s : State) → P s → OnError P (m s)

pub on_error : {A : Type 0} (P : State → Type 0) (r : Result A) (s : State) → P s → OnError P (r, s)
on_error P (ok a) s h = tt
on_error P (err e) s h = h

module _ {A : Type 0} {P : State → Type 0} where
  pub Keeps-pure : (a : A) → Keeps P (pure a)
  unfolding pure
  Keeps-pure a = record { at = λ s h. h }

  pub Keeps-raise : (e : Error) → Keeps P (raise {A = A} e)
  unfolding raise
  Keeps-raise e = record { at = λ s h. h }

  pub Keeps-gets : (f : State → A) → Keeps P (gets f)
  unfolding gets
  Keeps-gets f = record { at = λ s h. h }

  pub Keeps-or_key_error : (key : String) (o : Option A) → Keeps P (or_key_error key o)
  unfolding or_key_error
  Keeps-or_key_error key none = Keeps-raise (key_error key)
  Keeps-or_key_error key (some a) = Keeps-pure a

  pub Keeps-if : (b : Bool) (m n : M A) → Keeps P m → Keeps P n → Keeps P (if b then m else n)
  Keeps-if true m n km kn = km
  Keeps-if false m n km kn = kn

  pub Keeps-Fails : (m : M A) → Keeps P m → Fails P m
  Keeps-Fails m km = record { at = λ s h. on_error P (m s).0 (m s).1 (km.at s h) }

module _ {A B : Type 0} {P : State → Type 0} where
  continue-Keeps :
      (r : Result A) (f : A → M B) (s : State)
      → ((a : A) → Keeps P (f a))
      → P s
      → P (continue r f s).1
  continue-Keeps (ok a) f s kf h = (kf a).at s h
  continue-Keeps (err e) f s kf h = h

  pub Keeps-bind :
      (first : M A) (next : A → M B)
      → Keeps P first
      → ((value : A) → Keeps P (next value))
      → Keeps P (first >>= next)
  unfolding ◌>>=◌
  Keeps-bind first next before after = record {
    at = λ state holds.
        continue-Keeps (first state).0 next (first state).1 after (before.at state holds);
  }

  resume-Keeps :
      (r : Result A) (handler : Error → M B) (f : A → M B) (s : State)
      → ((e : Error) → Keeps P (handler e))
      → ((a : A) → Keeps P (f a))
      → P s
      → P (resume r handler f s).1
  resume-Keeps (ok a) handler f s kh kf h = (kf a).at s h
  resume-Keeps (err e) handler f s kh kf h = (kh e).at s h

  pub Keeps-try :
      (m : M A) (handler : Error → M B) (f : A → M B)
      → Keeps P m
      → ((e : Error) → Keeps P (handler e))
      → ((a : A) → Keeps P (f a))
      → Keeps P (try_else m handler f)
  unfolding try_else
  Keeps-try m handler f km kh kf = record {
    at = λ s h. resume-Keeps (m s).0 handler f (m s).1 kh kf (km.at s h);
  }

  continue-Fails :
      (r : Result A) (f : A → M B) (s : State)
      → ((a : A) → Fails P (f a))
      → P s
      → OnError P (continue r f s)
  continue-Fails (ok a) f s kf h = (kf a).at s h
  continue-Fails (err e) f s kf h = h

  pub Fails-bind :
      (m : M A) (f : A → M B) → Keeps P m → ((a : A) → Fails P (f a)) → Fails P (m >>= f)
  unfolding ◌>>=◌
  Fails-bind m f km kf = record { at = λ s h. continue-Fails (m s).0 f (m s).1 kf (km.at s h) }

pub ruleset keeps_rules =
    (Keeps-pure, Keeps-raise, Keeps-gets, Keeps-or_key_error, Keeps-if, Keeps-bind, Keeps-try)
