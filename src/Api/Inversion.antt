-- ===== src/Api/Inversion.antt =====
-- What is known of the parts of a handler of hpe_storage_api.py that went on.
use python_hpedockerplugin.Prelude.{
  ◌≡◌, refl, subst, Bool, true, false, Option, none, some, if◌then◌else◌,
}
use python_hpedockerplugin.Api.{Ending, Flow, stop, go, ◌>>=◌, stop_if, or_stop}

-- A property of the value with which a flow goes on.
pub record OnGo {A : Type 0} (P : A → Type 0) (m : Flow A) : Type 0 where
  pub at : (a : A) → m ≡ go a → P a

pub OnGo-here : {A : Type 0} {P : A → Type 0} (a : A) → P a → OnGo P (go a)
OnGo-here {P} a p = record { at = λ b e. subst P (cc e) p }

pub OnGo-stop : {A : Type 0} {P : A → Type 0} (ending : Ending) → OnGo P (stop ending)
OnGo-stop ending = record { at = λ a e. cc e }

pub OnGo-if :
    {A : Type 0} {P : A → Type 0} (test : Bool) (m n : Flow A)
    → (test ≡ true → OnGo P m)
    → (test ≡ false → OnGo P n)
    → OnGo P (if test then m else n)
OnGo-if true m n on_true on_false = on_true refl
OnGo-if false m n on_true on_false = on_false refl

module _ {A B : Type 0} {P : B → Type 0} where
  pub OnGo-bind :
      (m : Flow A) (f : A → Flow B) → ((a : A) → m ≡ go a → OnGo P (f a)) → OnGo P (m >>= f)
  unfolding ◌>>=◌ stop_if or_stop
  OnGo-bind (stop ending) f h = OnGo-stop ending
  OnGo-bind (go a) f h = h a refl

  pub OnGo-or_stop :
      (o : Option A) (ending : Ending) (f : A → Flow B)
      → ((a : A) → o ≡ some a → OnGo P (f a))
      → OnGo P (or_stop o ending >>= f)
  unfolding ◌>>=◌ stop_if or_stop
  OnGo-or_stop none ending f h = OnGo-stop ending
  OnGo-or_stop (some a) ending f h = h a refl

pub OnGo-stop_if :
    {B : Type 0} {P : B → Type 0} (test : Bool) (ending : Ending) (f : Unit {0} → Flow B)
    → (test ≡ false → OnGo P (f tt))
    → OnGo P (stop_if test ending >>= f)
unfolding ◌>>=◌ stop_if or_stop
OnGo-stop_if true ending f h = OnGo-stop ending
OnGo-stop_if false ending f h = h refl
