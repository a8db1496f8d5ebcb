-- ===== src/Effect/Tracked.antt =====
-- The invariant of the operations of volume_manager.py that undo on failure: the undo list is what
-- the completed calls leave to undo, and `K` holds of etcd.
use mathlib.Core.List.{append-nil, reverse}
use python_hpedockerplugin.Prelude.{
  ◌≡◌, refl, sym, ap, ◌∙◌, subst, inl, inr, true, Option, Option-cases, List, All, All-append_one,
  All-reverse_aux, none, some, [], ◌∷◌, ◌++◌, arith,
}
use python_hpedockerplugin.Effect.{
  Call, create_volume, Error, History, Env, Store, State, try_else, pure, ◌>>=◌, effect, call, ask,
  reset_undo, append_undo,
}
use python_hpedockerplugin.Effect.Trace.{compensation, compensations, when_completed, plain}
use python_hpedockerplugin.Effect.Keeps.{Keeps, Fails, keeps_rules}
use python_hpedockerplugin.Effect.Undo.{
  ask_undo, undo_step, undo_step_ok, roll, rollback, calls-rollback,
}

-- A call that keeps `K` of etcd, if it completes.
abbrev pub IsHarmless : Env → (Store → Type 0) → Call → Type 0
IsHarmless env K c = (h : History) (store : Store) → K store → K (effect env c h store)

pub record Tracked (env : Env) (K : Store → Type 0) (s : State) : Type 0 where
  pub undo : s.undo_steps ≡ compensations env s.calls
  pub harmless : All (IsHarmless env K) s.undo_steps
  pub kept : K s.etcd

-- Nothing is left to undo, and `K` holds of etcd.
pub record Quiet (env : Env) (K : Store → Type 0) (s : State) : Type 0 where
  pub none_due : compensations env s.calls ≡ []
  pub kept : K s.etcd

-- The calls made up to some point, and then the compensation of each of them that completed: the
-- newest call first, so that the newest work is undone first.
pub record RolledBack (env : Env) (calls : History) : Type 0 where
  pub forward : History
  pub undone : calls ≡ compensations env forward ++ forward

module _ (env : Env) where
  pub Quiet-RolledBack : {K : Store → Type 0} (s : State) → Quiet env K s → RolledBack env s.calls
  Quiet-RolledBack s q = record { forward = s.calls; undone = rw q.none_due }

  pub Tracked-rollback :
      {K : Store → Type 0} (s : State) → Tracked env K s → RolledBack env (rollback env s).1.calls
  Tracked-rollback s t = record {
    forward = s.calls;
    undone = calls-rollback env s ∙ ap (λ u. u ++ s.calls) t.undo;
  }

  nothing_when_completed : (o : Option Error) → when_completed o [] ≡ []
  nothing_when_completed none = refl
  nothing_when_completed (some e) = refl

  -- A plain call leaves nothing more to undo.
  compensations-plain :
      (c : Call) (h : History) → plain c ≡ true → compensations env (c ∷ h) ≡ compensations env h
  unfolding compensations compensation
  compensations-plain (create_volume id) h p = cc
  compensations-plain c h p = first_of (
    cc,
    ground (arith, nothing_when_completed (env.outcome c h), append-nil (compensations env h)),
  )

  effect-plain :
      (c : Call) (h : History) (store : Store) → plain c ≡ true → effect env c h store ≡ store
  effect-plain (create_volume id) h store p = refl
  effect-plain c h store p = first_of (cc, ground arith)

  -- A call with one compensation adds it, if it completes.
  compensations-due :
      (c : Call) (h : History) (d : Call)
      → compensation env c h ≡ d ∷ []
      → compensations env (c ∷ h) ≡ compensations env h ++ when_completed (env.outcome c h) (d ∷ [])
  unfolding compensations compensation
  compensations-due (create_volume id) h d p = rw p
  compensations-due c h d p = first_of (cc, ground arith)

  -- A call of a state either raises or completes.
  pub call-cases :
      (P : State → Type 0) (c : Call) (s : State)
      → ((e : Error) → env.outcome c s.calls ≡ some e → P (record s { calls = c ∷ s.calls }))
      → (env.outcome c s.calls ≡ none
          → P (record s { etcd = effect env c s.calls s.etcd; calls = c ∷ s.calls }))
      → P (call env c s).1
  unfolding call
  call-cases P c s raised done = elim (Option-cases (env.outcome c s.calls)) [
    | inl e ↦ rw (e, call) (done e)
    | inr (x, e) ↦ rw (e, call) (raised x e)
  ]

  ask_undo-cases :
      {A : Type 0} (P : State → Type 0) (c : Call) (f : History → A) (step : A → Call) (s : State)
      → ((e : Error) → env.outcome c s.calls ≡ some e → P (record s { calls = c ∷ s.calls }))
      → (env.outcome c s.calls ≡ none
          → P (record s {
            etcd = effect env c s.calls s.etcd;
            calls = c ∷ s.calls;
            undo_steps = s.undo_steps ++ step (f (c ∷ s.calls)) ∷ [];
          }))
      → P (ask_undo env c f step s).1
  unfolding ask_undo ask call append_undo ◌>>=◌
  ask_undo-cases P c f step s raised done = elim (Option-cases (env.outcome c s.calls)) [
    | inl e ↦ rw (e, ask_undo) (done e)
    | inr (x, e) ↦ rw (e, ask_undo) (raised x e)
  ]

  -- A call that raised adds nothing to undo.
  compensations-raised :
      (c : Call) (h : History) (d : Call) (e : Error)
      → compensation env c h ≡ d ∷ []
      → env.outcome c h ≡ some e
      → compensations env (c ∷ h) ≡ compensations env h
  compensations-raised c h d e due raised =
      compensations-due c h d due ∙ (rw raised (append-nil (compensations env h)))

  undo_step-kept :
      (K : Store → Type 0) (c : Call) (s : State)
      → IsHarmless env K c
      → K s.etcd
      → K (undo_step env c s).1.etcd
  unfolding try_else call pure
  undo_step-kept K c s safe k = elim (Option-cases (env.outcome c s.calls)) [
    | inl e ↦ rw (e, undo_step) (safe s.calls s.etcd k)
    | inr (x, e) ↦ rw (e, undo_step) k
  ]

  roll-kept :
      (K : Store → Type 0) (steps : List Call) (s : State)
      → All (IsHarmless env K) steps
      → K s.etcd
      → K (roll env steps s).1.etcd
  unfolding roll ◌>>=◌
  roll-kept K [] s safe k = k
  roll-kept K (c ∷ steps) s safe k =
      let s' = (undo_step env c s).1 in
      let rest = roll-kept K steps s' safe.1 (undo_step-kept K c s safe.0 k) in
      rw (undo_step_ok env c s) rest

  module _ {K : Store → Type 0} where
    pub Keeps-plain-Tracked : (c : Call) → plain c ≡ true → Keeps (Tracked env K) (call env c)
    Keeps-plain-Tracked c p = record {
      at = λ s t.
          let due = t.undo ∙ sym (compensations-plain c s.calls p) in
          call-cases (Tracked env K) c s
            (λ e _. record { undo = due; harmless = t.harmless; kept = t.kept })
            (λ _. record {
              undo = due;
              harmless = t.harmless;
              kept = subst K (sym (effect-plain c s.calls s.etcd p)) t.kept;
            });
    }

    pub Keeps-plain-Quiet : (c : Call) → plain c ≡ true → Keeps (Quiet env K) (call env c)
    Keeps-plain-Quiet c p = record {
      at = λ s t.
          let due = compensations-plain c s.calls p ∙ t.none_due in
          call-cases (Quiet env K) c s (λ e _. record { none_due = due; kept = t.kept })
            (λ _. record {
              none_due = due;
              kept = subst K (sym (effect-plain c s.calls s.etcd p)) t.kept;
            });
    }

    pub Keeps-ask_undo :
        {A : Type 0} (c : Call) (f : History → A) (step : A → Call)
        → ((h : History) → compensation env c h ≡ step (f (c ∷ h)) ∷ [])
        → IsHarmless env K c
        → ((a : A) → IsHarmless env K (step a))
        → Keeps (Tracked env K) (ask_undo env c f step)
    Keeps-ask_undo c f step due still safe = record {
      at = λ s t.
          ask_undo-cases (Tracked env K) c f step s
            (λ e raised. record {
              undo = t.undo ∙ sym (compensations-raised c s.calls _ e (due s.calls) raised);
              harmless = t.harmless;
              kept = t.kept;
            })
            (λ done. record {
              undo = rw (compensations-due c s.calls _ (due s.calls), done, t.undo);
              harmless = All-append_one _ s.undo_steps _ t.harmless (safe _);
              kept = still s.calls s.etcd t.kept;
            });
    }

    -- A call with a compensation that raised.
    pub Tracked-raised :
        (c : Call) (d : Call) (s : State) (e : Error)
        → compensation env c s.calls ≡ d ∷ []
        → env.outcome c s.calls ≡ some e
        → Tracked env K s
        → Tracked env K (record s { calls = c ∷ s.calls })
    Tracked-raised c d s e due raised t = record {
      undo = t.undo ∙ sym (compensations-raised c s.calls d e due raised);
      harmless = t.harmless;
      kept = t.kept;
    }

    -- A rollback keeps `K` of etcd.
    pub rollback-kept : (s : State) → Tracked env K s → K (rollback env s).1.etcd
    unfolding rollback
    rollback-kept s t =
        roll-kept K (reverse s.undo_steps) s (All-reverse_aux _ s.undo_steps [] t.harmless tt)
          t.kept

    pub reset_undo-Quiet : (s : State) → K s.etcd → Quiet env K (reset_undo s).1
    unfolding reset_undo compensations
    reset_undo-Quiet s k = record { none_due = refl; kept = k }

    -- A first step that raises leaves nothing to undo.
    pub ask_undo-Quiet :
        {A : Type 0} (c : Call) (f : History → A) (step : A → Call)
        → ((h : History) → compensation env c h ≡ step (f (c ∷ h)) ∷ [])
        → Fails (Quiet env K) (ask_undo env c f step)
    unfolding ask_undo ask call append_undo ◌>>=◌
    ask_undo-Quiet c f step due = record {
      at = λ s q. elim (Option-cases (env.outcome c s.calls)) [
        | inl e ↦ rw (e, ask_undo) tt
        | inr (x, e) ↦
            rw (e, ask_undo)
              (record {
                none_due = compensations-raised c s.calls _ x (due s.calls) e ∙ q.none_due;
                kept = q.kept;
              })
      ];
    }

    -- `undo_steps = []` where nothing is left to undo.
    pub Keeps-reset_undo : (s : State) → Quiet env K s → Tracked env K (reset_undo s).1
    unfolding reset_undo compensations
    Keeps-reset_undo s q = record { undo = refl; harmless = tt; kept = q.kept }

    pub Keeps-ask-Tracked :
        {A : Type 0} (c : Call) (f : History → A)
        → plain c ≡ true
        → Keeps (Tracked env K) (ask env c f)
    unfolding ask
    Keeps-ask-Tracked c f p = search (keeps_rules, Keeps-plain-Tracked c p)

    pub Keeps-ask-Quiet :
        {A : Type 0} (c : Call) (f : History → A)
        → plain c ≡ true
        → Keeps (Quiet env K) (ask env c f)
    unfolding ask
    Keeps-ask-Quiet c f p = search (keeps_rules, Keeps-plain-Quiet c p)
