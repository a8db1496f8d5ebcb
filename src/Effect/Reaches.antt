-- ===== src/Effect/Reaches.antt =====
-- What holds where an action returns: from `Q`, its value and its last state satisfy `P`.
use python_hpedockerplugin.Prelude.{◌≡◌, Bool, true, false, [], ◌∷◌, ◌⊎◌, if◌then◌else◌}
use python_hpedockerplugin.Effect.{
  Call, Error, Result, ok, err, History, State, M, pure, raise, continue, ◌>>=◌, resume, try_else,
}
use python_hpedockerplugin.Effect.Keeps.{Keeps}

-- A call of the request.
abbrev pub Made : Call → History → Type 0
Made c [] = ⊥
Made c (x ∷ h) = (x ≡ c) ⊎ Made c h

abbrev pub OnOk : {A : Type 0} → (A → State → Type 0) → Result A × State → Type 0
OnOk P (ok a, s) = P a s
OnOk P (err e, s) = Unit

on_ok : {A : Type 0} (Q : State → Type 0) (r : Result A) (s : State) → Q s → OnOk (λ a. Q) (r, s)
on_ok Q (ok a) s q = q
on_ok Q (err e) s q = tt

pub record Reaches {A : Type 0} (Q : State → Type 0) (P : A → State → Type 0) (m : M A)
    : Type 0 where
  pub at : (s : State) → Q s → OnOk P (m s)

module _ {A : Type 0} {Q : State → Type 0} where
  pub Reaches-pure :
      (P : A → State → Type 0) (a : A) → ((s : State) → Q s → P a s) → Reaches Q P (pure a)
  unfolding pure
  Reaches-pure P a h = record { at = h }

  pub Reaches-raise : (P : A → State → Type 0) (e : Error) → Reaches Q P (raise e)
  unfolding raise
  Reaches-raise P e = record { at = λ s q. tt }

  pub Reaches-if :
      (P : A → State → Type 0) (b : Bool) (m n : M A)
      → Reaches Q P m
      → Reaches Q P n
      → Reaches Q P (if b then m else n)
  Reaches-if P true m n rm rn = rm
  Reaches-if P false m n rm rn = rn

module _ {A : Type 0} {Q : State → Type 0} where
  pub Reaches-Keeps : (m : M A) → Keeps Q m → Reaches Q (λ a. Q) m
  Reaches-Keeps m keeps = record { at = λ s q. on_ok Q (m s).0 (m s).1 (keeps.at s q) }

module _ {A B : Type 0} {P : B → State → Type 0} (R : A → State → Type 0) where
  continue-Reaches :
      (r : Result A) (f : A → M B) (s : State)
      → OnOk R (r, s)
      → ((a : A) → Reaches (R a) P (f a))
      → OnOk P (continue r f s)
  continue-Reaches (ok a) f s q after = (after a).at s q
  continue-Reaches (err e) f s q after = tt

  resume-Reaches :
      (r : Result A) (handler : Error → M B) (f : A → M B) (s : State)
      → OnOk R (r, s)
      → ((e : Error) → Reaches (λ s. Unit) P (handler e))
      → ((a : A) → Reaches (R a) P (f a))
      → OnOk P (resume r handler f s)
  resume-Reaches (ok a) handler f s q failed after = (after a).at s q
  resume-Reaches (err e) handler f s q failed after = (failed e).at s tt

  module _ {Q : State → Type 0} where
    pub Reaches-bind :
        (m : M A) (f : A → M B)
        → Reaches Q R m
        → ((a : A) → Reaches (R a) P (f a))
        → Reaches Q P (m >>= f)
    unfolding ◌>>=◌
    Reaches-bind m f first after = record {
      at = λ s q. continue-Reaches (m s).0 f (m s).1 (first.at s q) after;
    }

    pub Reaches-try :
        (m : M A) (handler : Error → M B) (f : A → M B)
        → Reaches Q R m
        → ((e : Error) → Reaches (λ s. Unit) P (handler e))
        → ((a : A) → Reaches (R a) P (f a))
        → Reaches Q P (try_else m handler f)
    unfolding try_else
    Reaches-try m handler f first failed after = record {
      at = λ s q. resume-Reaches (m s).0 handler f (m s).1 (first.at s q) failed after;
    }
