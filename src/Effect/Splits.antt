-- ===== src/Effect/Splits.antt =====
-- Actions that keep `Q` where they return and leave `P` where they raise, or where they answer in
-- some way.
use python_hpedockerplugin.Prelude.{◌≡◌, Bool, true, false, if◌then◌else◌}
use python_hpedockerplugin.Effect.{
  Error, Result, ok, err, State, M, pure, continue, ◌>>=◌, resume, try_else,
}
use python_hpedockerplugin.Effect.Keeps.{Keeps}

abbrev pub OnEither : {A : Type 0} (Q P : State → Type 0) → Result A × State → Type 0
OnEither Q P (ok a, s) = Q s
OnEither Q P (err e, s) = P s

pub record Splits {A : Type 0} (Q P : State → Type 0) (m : M A) : Type 0 where
  pub at : (s : State) → Q s → OnEither Q P (m s)

either_of :
    {A : Type 0} (Q P : State → Type 0) (r : Result A) (s : State)
    → ((s : State) → Q s → P s)
    → Q s
    → OnEither Q P (r, s)
either_of Q P (ok a) s weaken q = q
either_of Q P (err e) s weaken q = weaken s q

pub at_error :
    {A : Type 0} (Q P : State → Type 0) (r : Result A) (s : State) (e : Error)
    → r ≡ err e
    → OnEither Q P (r, s)
    → P s
at_error Q P (ok a) s e same h = cc
at_error Q P (err x) s e same h = h

module _ {A : Type 0} {Q P : State → Type 0} where
  pub Splits-pure : (a : A) → Splits Q P (pure a)
  unfolding pure
  Splits-pure a = record { at = λ s q. q }

  pub Splits-if :
      (b : Bool) (m n : M A) → Splits Q P m → Splits Q P n → Splits Q P (if b then m else n)
  Splits-if true m n sm sn = sm
  Splits-if false m n sm sn = sn

  -- From a stronger start, where raising at once is enough for `P`.
  pub Splits-Keeps : (m : M A) → ((s : State) → Q s → P s) → Keeps Q m → Splits Q P m
  Splits-Keeps m weaken keeps = record {
    at = λ s q. either_of Q P (m s).0 (m s).1 weaken (keeps.at s q);
  }

weaken_error :
    {A : Type 0} (Q P R : State → Type 0) (r : Result A) (s : State)
    → ((s : State) → P s → R s)
    → OnEither Q P (r, s)
    → OnEither Q R (r, s)
weaken_error Q P R (ok a) s weaken h = h
weaken_error Q P R (err e) s weaken h = weaken s h

pub Splits-weaken :
    {A : Type 0} {Q P R : State → Type 0} (m : M A)
    → ((s : State) → P s → R s)
    → Splits Q P m
    → Splits Q R m
Splits-weaken m weaken splits = record {
  at = λ s q. weaken_error _ _ _ (m s).0 (m s).1 weaken (splits.at s q);
}

module _ {A B : Type 0} {Q P : State → Type 0} where
  continue-Splits :
      (r : Result A) (f : A → M B) (s : State)
      → OnEither Q P (r, s)
      → ((a : A) → Splits Q P (f a))
      → OnEither Q P (continue r f s)
  continue-Splits (ok a) f s q after = (after a).at s q
  continue-Splits (err e) f s p after = p

  pub Splits-bind :
      (m : M A) (f : A → M B) → Splits Q P m → ((a : A) → Splits Q P (f a)) → Splits Q P (m >>= f)
  unfolding ◌>>=◌
  Splits-bind m f first after = record {
    at = λ s q. continue-Splits (m s).0 f (m s).1 (first.at s q) after;
  }

  resume-Splits :
      (r : Result A) (handler : Error → M B) (f : A → M B) (s : State)
      → Q s
      → ((e : Error) → Splits Q P (handler e))
      → ((a : A) → Splits Q P (f a))
      → OnEither Q P (resume r handler f s)
  resume-Splits (ok a) handler f s q failed after = (after a).at s q
  resume-Splits (err e) handler f s q failed after = (failed e).at s q

  pub Splits-try :
      (m : M A) (handler : Error → M B) (f : A → M B)
      → Keeps Q m
      → ((e : Error) → Splits Q P (handler e))
      → ((a : A) → Splits Q P (f a))
      → Splits Q P (try_else m handler f)
  unfolding try_else
  Splits-try m handler f keeps failed after = record {
    at = λ s q. resume-Splits (m s).0 handler f (m s).1 (keeps.at s q) failed after;
  }

pub ruleset splits_rules = (Splits-pure, Splits-if, Splits-bind, Splits-try)
