-- ===== src/Mount/Connect/Undo.antt =====
-- What the connection to the arrays leaves behind when it fails.
use python_hpedockerplugin.Prelude.{
  ◌≡◌, refl, Bool-cases, inl, inr, String, Bool, Option, none, some,
}
use python_hpedockerplugin.Volume.{ConnectionInfo, RcgInfo, rcg_info, lock_failure_text, Volume}
use python_hpedockerplugin.Effect.{
  Array, primary, initialize_connection, terminate_connection, connect_volume, disconnect_volume,
  Error, Result, ok, err, Env, Store, State, M, continue, ◌>>=◌, reset_undo,
}
use python_hpedockerplugin.Effect.Keeps.{Keeps, keeps_rules}
use python_hpedockerplugin.Effect.Trace.{compensation, compensations}
use python_hpedockerplugin.Effect.Undo.{ask_undo, rollback_ok}
use python_hpedockerplugin.Effect.Splits.{
  Splits, OnEither, at_error, Splits-Keeps, Splits-weaken, splits_rules,
}
use python_hpedockerplugin.Effect.Tracked.{
  Tracked, Quiet, Keeps-plain-Tracked, Keeps-ask_undo, Keeps-ask-Tracked, Keeps-ask-Quiet,
  reset_undo-Quiet,
}
use python_hpedockerplugin.Manager.Undone.{Undone, Quiet-Undone, rollback-Undone}
use python_hpedockerplugin.Replication.{Config, fetch_rcg, or_raise, get_target_driver}
use python_hpedockerplugin.Mount.Connect.{
  initialize, rollback_and_raise, connect, mount_on, mount_on_both, mount_on_one, mount_replicated,
  mount_arrays_for, mount_arrays,
}

module _ (env : Env) {K : Store → Type 0} where
  initialize_connection-Tracked :
      (array : Array) (vol : Volume) (is_snap : Bool)
      → Keeps (Tracked env K) (
          ask_undo env
            (initialize_connection array vol.id is_snap)
            (env.connection array vol.id)
            (λ _. terminate_connection array vol.id is_snap))
  unfolding compensation
  initialize_connection-Tracked array vol is_snap =
      Keeps-ask_undo env _ _ _ (λ h. refl) (λ h store k. k) (λ a h store k. k)

  initialize-Tracked :
      (array : Array) (vol : Volume) (is_snap : Bool)
      → Keeps (Tracked env K) (initialize env array vol is_snap)
  unfolding initialize
  initialize-Tracked array vol is_snap =
      search (keeps_rules, Keeps-plain-Tracked env, initialize_connection-Tracked)

  connect_volume-Tracked :
      (info : ConnectionInfo)
      → Keeps (Tracked env K) (
          ask_undo env
            (connect_volume info)
            (env.text (connect_volume info))
            (λ _. disconnect_volume info))
  unfolding compensation
  connect_volume-Tracked info =
      Keeps-ask_undo env _ _ _ (λ h. refl) (λ h store k. k) (λ a h store k. k)

  rollback_and_raise-Splits :
      {A : Type 0} (reason : String) (e : Error)
      → Splits (Tracked env K) (Undone env K) (rollback_and_raise env {A = A} reason e)
  unfolding rollback_and_raise ◌>>=◌
  rollback_and_raise-Splits reason e = record {
    at = λ s t. rw (rollback_ok env s) (rollback-Undone env K s t);
  }

  connect-Splits :
      (info : ConnectionInfo) → Splits (Tracked env K) (Undone env K) (connect env info)
  unfolding connect
  connect-Splits info = search (splits_rules, rollback_and_raise-Splits, connect_volume-Tracked)

  mount_on-Splits :
      (array : Array) (vol : Volume) (is_snap : Bool)
      → Splits (Tracked env K) (Undone env K) (mount_on env array vol is_snap)
  unfolding mount_on
  mount_on-Splits array vol is_snap =
      search (splits_rules, rollback_and_raise-Splits, initialize-Tracked, connect-Splits)

  mount_on_both-Splits :
      (vol : Volume) (is_snap : Bool)
      → Splits (Tracked env K) (Undone env K) (mount_on_both env vol is_snap)
  unfolding mount_on_both
  mount_on_both-Splits vol is_snap = search (splits_rules, mount_on-Splits)

  mount_on_one-Splits :
      (array : Array) (vol : Volume) (is_snap : Bool)
      → Splits (Tracked env K) (Undone env K) (mount_on_one env array vol is_snap)
  unfolding mount_on_one
  mount_on_one-Splits array vol is_snap = search (splits_rules, mount_on-Splits)

-- Nothing has been done yet that is left to undo.
abbrev Fresh : Env → (Store → Type 0) → State → Type 0
Fresh env K s = Quiet env K s × Tracked env K s

module _ (env : Env) {K : Store → Type 0} where
  Keeps-Fresh :
      {A : Type 0} (m : M A)
      → Keeps (Quiet env K) m
      → Keeps (Tracked env K) m
      → Keeps (Fresh env K) m
  Keeps-Fresh m quiet tracked = record { at = λ s f. (quiet.at s f.0, tracked.at s f.1) }

  fetch_rcg-Fresh : (array : Array) (name : String) → Keeps (Fresh env K) (fetch_rcg env array name)
  unfolding fetch_rcg
  fetch_rcg-Fresh array name =
      Keeps-Fresh _ (search (keeps_rules, Keeps-ask-Quiet env))
        (search (keeps_rules, Keeps-ask-Tracked env))

  or_raise-Fresh : {A : Type 0} (r : Result A) → Keeps (Fresh env K) (or_raise r)
  unfolding or_raise
  or_raise-Fresh (ok a) = search keeps_rules
  or_raise-Fresh (err e) = search keeps_rules

  get_target_driver-Fresh : (info : RcgInfo) → Keeps (Fresh env K) (get_target_driver env info)
  unfolding get_target_driver
  get_target_driver-Fresh lock_failure_text = search keeps_rules
  get_target_driver-Fresh (rcg_info name remote_name) =
      search (keeps_rules, fetch_rcg-Fresh, or_raise-Fresh)

module _ (env : Env) (K : Store → Type 0) where
  -- From a fresh state, what is done is undone if the action raises.
  abbrev Raises : {A : Type 0} → M A → Type 0
  Raises m = (s : State) → Fresh env K s → OnEither (λ s. Unit) (Undone env K) (m s)

  forget_ok :
      {A : Type 0} (r : Result A) (s : State)
      → OnEither (Tracked env K) (Undone env K) (r, s)
      → OnEither (λ s. Unit) (Undone env K) (r, s)
  forget_ok (ok a) s h = tt
  forget_ok (err e) s h = h

  Splits-Raises : {A : Type 0} (m : M A) → Splits (Tracked env K) (Undone env K) m → Raises m
  Splits-Raises m splits s f = forget_ok (m s).0 (m s).1 (splits.at s f.1)

  continue-Raises :
      {A B : Type 0} (r : Result A) (f : A → M B) (s : State)
      → Fresh env K s
      → ((a : A) → Raises (f a))
      → OnEither (λ s. Unit) (Undone env K) (continue r f s)
  continue-Raises (ok a) f s fresh after = after a s fresh
  continue-Raises (err e) f s fresh after = Quiet-Undone env K s fresh.0

  mount_replicated-Raises :
      (config : Config) (vol : Volume) (info : RcgInfo) (is_snap : Bool)
      → Raises (mount_replicated env config vol info is_snap)
  unfolding mount_replicated ◌>>=◌
  mount_replicated-Raises config vol info is_snap s fresh =
      elim (Bool-cases config.quorum_witness) [
        | inl e ↦
            rw (e, mount_replicated)
              (Splits-Raises _ (mount_on_both-Splits env vol is_snap) s fresh)
        | inr e ↦
            rw (e, mount_replicated)
              (continue-Raises _ (λ driver. mount_on_one env driver vol is_snap) _
                ((get_target_driver-Fresh env info).at s fresh)
                (λ driver. Splits-Raises _ (mount_on_one-Splits env driver vol is_snap)))
      ]

  mount_arrays_for-Raises :
      (config : Config) (vol : Volume) (rcg : Option RcgInfo) (is_snap : Bool)
      → Raises (mount_arrays_for env config vol rcg is_snap)
  unfolding mount_arrays_for
  mount_arrays_for-Raises config vol none is_snap s fresh =
      Splits-Raises _ (mount_on_one-Splits env primary vol is_snap) s fresh
  mount_arrays_for-Raises config vol (some info) is_snap s fresh =
      elim (Bool-cases config.replication) [
        | inl e ↦ rw (e, mount_arrays_for) (mount_replicated-Raises config vol info is_snap s fresh)
        | inr e ↦
            rw (e, mount_arrays_for)
              (Splits-Raises _ (mount_on_one-Splits env primary vol is_snap) s fresh)
      ]

module _ (env : Env) {K : Store → Type 0} where
  fetch_rcg-Tracked :
      (array : Array) (name : String) → Keeps (Tracked env K) (fetch_rcg env array name)
  unfolding fetch_rcg
  fetch_rcg-Tracked array name = search (keeps_rules, Keeps-ask-Tracked env)

  or_raise-Tracked : {A : Type 0} (r : Result A) → Keeps (Tracked env K) (or_raise r)
  unfolding or_raise
  or_raise-Tracked (ok a) = search keeps_rules
  or_raise-Tracked (err e) = search keeps_rules

  get_target_driver-Tracked : (info : RcgInfo) → Keeps (Tracked env K) (get_target_driver env info)
  unfolding get_target_driver
  get_target_driver-Tracked lock_failure_text = search keeps_rules
  get_target_driver-Tracked (rcg_info name remote_name) =
      search (keeps_rules, fetch_rcg-Tracked, or_raise-Tracked)

  get_target_driver-Splits :
      (info : RcgInfo) → Splits (Tracked env K) (λ s. Unit) (get_target_driver env info)
  get_target_driver-Splits info = Splits-Keeps _ (λ s t. tt) (get_target_driver-Tracked info)

  one :
      (array : Array) (vol : Volume) (is_snap : Bool)
      → Splits (Tracked env K) (λ s. Unit) (mount_on_one env array vol is_snap)
  one array vol is_snap = Splits-weaken _ (λ s p. tt) (mount_on_one-Splits env array vol is_snap)

  both :
      (vol : Volume) (is_snap : Bool)
      → Splits (Tracked env K) (λ s. Unit) (mount_on_both env vol is_snap)
  both vol is_snap = Splits-weaken _ (λ s p. tt) (mount_on_both-Splits env vol is_snap)

  mount_replicated-Splits :
      (config : Config) (vol : Volume) (info : RcgInfo) (is_snap : Bool)
      → Splits (Tracked env K) (λ s. Unit) (mount_replicated env config vol info is_snap)
  unfolding mount_replicated
  mount_replicated-Splits config vol info is_snap =
      search (splits_rules, get_target_driver-Splits, one, both)

  -- Where the connection returns, its undo steps are registered.
  pub mount_arrays_for-Splits :
      (config : Config) (vol : Volume) (rcg : Option RcgInfo) (is_snap : Bool)
      → Splits (Tracked env K) (λ s. Unit) (mount_arrays_for env config vol rcg is_snap)
  unfolding mount_arrays_for
  mount_arrays_for-Splits config vol none is_snap = one primary vol is_snap
  mount_arrays_for-Splits config vol (some info) is_snap =
      search (splits_rules, mount_replicated-Splits, one)

-- Where connecting a volume to its array, or to both arrays of a Peer Persistence setup, raises an
-- exception, the calls made since the undo list was emptied are followed by exactly the compensating
-- call of each that completed, the newest first, and what etcd holds is unchanged.
pub mount_arrays-Undone :
    (env : Env) (config : Config) (vol : Volume) (is_snap : Bool) (s : State) (e : Error)
    → (mount_arrays env config vol is_snap (reset_undo s).1).0 ≡ err e
    → Undone env (λ etcd. etcd ≡ s.etcd) (mount_arrays env config vol is_snap (reset_undo s).1).1
unfolding mount_arrays reset_undo compensations
mount_arrays-Undone env config vol is_snap s e raised =
    at_error (λ s. Unit) (Undone env (λ etcd. etcd ≡ s.etcd)) _ _ e raised
      (mount_arrays_for-Raises env (λ etcd. etcd ≡ s.etcd) config vol vol.rcg is_snap
        (reset_undo s).1
        (reset_undo-Quiet env s refl, record { undo = refl; harmless = tt; kept = refl }))
