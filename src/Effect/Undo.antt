-- ===== src/Effect/Undo.antt =====
-- volume_manager.py, `_rollback`, and the shape of the statements that add to an undo list.
use mathlib.Core.List.{reverse, reverse_aux, reverse_aux-eq, reverse-reverse}
use python_hpedockerplugin.Prelude.{◌≡◌, refl, ap, ◌∙◌, List, [], ◌∷◌, ◌++◌, arith}
use python_hpedockerplugin.Effect.{
  Call, ok, History, Env, State, M, pure, ◌>>=◌, ◌>>◌, try_else, call, ask, append_undo,
}

-- A call, the registration of its undo step, and its answer.
unfoldable pub ask_undo : {A : Type 0} → Env → Call → (History → A) → (A → Call) → M A
ask_undo env c f step = do a ← ask env c f; append_undo (step a); pure a

-- One undo step, whose exception is ignored.
abbrev pub undo_step : Env → Call → M (Unit {0})
undo_step env step = try_else (call env step) (λ _. pure tt) pure

unfoldable pub roll : Env → List Call → M (Unit {0})
roll env [] = pure tt
roll env (step ∷ steps) = undo_step env step >> roll env steps

-- Every step is tried, the last one first, and the exceptions of a step are ignored.
unfoldable pub rollback : Env → M (Unit {0})
unfolding roll
rollback env s = roll env (reverse s.undo_steps) s

module _ (env : Env) where
  pub undo_step_ok : (step : Call) (s : State) → (undo_step env step s).0 ≡ ok tt
  unfolding try_else call ◌>>=◌
  undo_step_ok step s = ground arith

  calls-undo_step : (step : Call) (s : State) → (undo_step env step s).1.calls ≡ step ∷ s.calls
  unfolding try_else call ◌>>=◌
  calls-undo_step step s = ground arith

  pub roll_ok : (steps : List Call) (s : State) → (roll env steps s).0 ≡ ok tt
  unfolding roll ◌>>=◌
  roll_ok [] s = refl
  roll_ok (step ∷ steps) s =
      ground (arith, undo_step_ok step s, roll_ok steps (undo_step env step s).1)

  calls-roll :
      (steps : List Call) (s : State) → (roll env steps s).1.calls ≡ reverse_aux steps s.calls
  unfolding roll ◌>>=◌
  calls-roll [] s = refl
  calls-roll (step ∷ steps) s = ground (
    arith,
    undo_step_ok step s,
    calls-undo_step step s,
    calls-roll steps (undo_step env step s).1,
  )

  pub calls-rollback : (s : State) → (rollback env s).1.calls ≡ s.undo_steps ++ s.calls
  unfolding rollback
  calls-rollback s =
      calls-roll (reverse s.undo_steps) s
      ∙ reverse_aux-eq (reverse s.undo_steps) s.calls
      ∙ ap (λ l. l ++ s.calls) (reverse-reverse s.undo_steps)

  pub rollback_ok : (s : State) → (rollback env s).0 ≡ ok tt
  unfolding rollback
  rollback_ok s = roll_ok (reverse s.undo_steps) s

  -- A rollback tries every registered step, the last one first, whichever of them raise, makes no
  -- other call, and raises nothing.
  pub rollback-calls :
      (s : State)
      → ((rollback env s).1.calls ≡ s.undo_steps ++ s.calls) × ((rollback env s).0 ≡ ok tt)
  rollback-calls s = (calls-rollback s, rollback_ok s)
