-- ===== src/Mount/Fencing/Since.antt =====
-- What a fence has done since it began: which calls it made, and on which arrays it removed the
-- exports.
use python_hpedockerplugin.Prelude.{
  String, ◌≡◌, refl, ap, ◌∙◌, inl, inr, Bool, true, false, Option, none, some, List, ◌∷◌, ◌++◌, All,
  Option-cases, if◌then◌else◌,
}
use python_hpedockerplugin.Volume.{RcgInfo, rcg_info, lock_failure_text}
use python_hpedockerplugin.Effect.{
  Array, primary, secondary, Call, etcd_read, etcd_update, get_rcg, force_remove_vlun, Result, Env,
  State, force_remove_vlun_failed, pure, raise, try_else, call, ask, ◌>>=◌,
}
use python_hpedockerplugin.Effect.Keeps.{Keeps, keeps_rules}
use python_hpedockerplugin.Effect.Reaches.{
  Made, Reaches, Reaches-pure, Reaches-raise, Reaches-bind, Reaches-try, Reaches-Keeps,
}
use python_hpedockerplugin.Replication.{
  Config, or_raise, fetch_rcg, get_target_driver, force_remove_replicated, force_remove_for,
}

-- The calls of a fence.
abbrev pub IsFencing : Call → Type 0
IsFencing (get_rcg array name) = Unit
IsFencing (force_remove_vlun array name) = Unit
IsFencing (etcd_read key) = Unit
IsFencing (etcd_update vol) = Unit
IsFencing c = ⊥

-- The calls made since the base state are calls of a fence, of which `P` holds.
pub record Since (P : List Call → Type 0) (base s : State) : Type 0 where
  pub made : List Call
  pub calls : s.calls ≡ made ++ base.calls
  pub fencing : All IsFencing made
  pub holds : P made

-- The exports of the volume were removed by force: on the primary array without replication, on both
-- arrays under Peer Persistence, else on one.
abbrev pub Removed : Config → Option RcgInfo → String → List Call → Type 0
Removed config none name made = Made (force_remove_vlun primary name) made
Removed config (some info) name made =
    if config.replication
    then (if config.quorum_witness
        then Made (force_remove_vlun primary name) made
          × Made (force_remove_vlun secondary name) made
        else (array : Array) × Made (force_remove_vlun array name) made)
    else Made (force_remove_vlun primary name) made

-- Such calls, and etcd as it was.
abbrev pub Reading : (List Call → Type 0) → State → State → Type 0
Reading P base s = Since P base s × (s.etcd ≡ base.etcd)

-- Calls that leave etcd.
abbrev IsReading : Call → Type 0
IsReading (get_rcg array name) = Unit
IsReading (force_remove_vlun array name) = Unit
IsReading (etcd_read key) = Unit
IsReading c = ⊥

abbrev pub Anything : List Call → Type 0
Anything made = Unit

pub more_calls :
    {P : List Call → Type 0} (Q : List Call → Type 0) {base s t : State} (c : Call)
    → IsFencing c
    → ((made : List Call) → P made → Q (c ∷ made))
    → t.calls ≡ c ∷ s.calls
    → Since P base s
    → Since Q base t
more_calls Q c is_fencing step e h = record {
  made = c ∷ h.made;
  calls = e ∙ ap (λ x. c ∷ x) h.calls;
  fencing = (is_fencing, h.fencing);
  holds = step h.made h.holds;
}

module _ (env : Env) (base : State) where
  call-Reading :
      {P : List Call → Type 0} (Q : List Call → Type 0) (array : Array) (name : String)
      → ((made : List Call) → P made → Q (force_remove_vlun array name ∷ made))
      → Reaches (Reading P base) (λ u. Reading Q base) (call env (force_remove_vlun array name))
  unfolding call
  call-Reading Q array name step = record {
    at = λ s h. elim (Option-cases (env.outcome (force_remove_vlun array name) s.calls)) [
      | inl e ↦ rw (e, call) (more_calls Q (force_remove_vlun array name) tt step refl h.0, h.1)
      | inr (x, e) ↦ rw (e, call) tt
    ];
  }

  force-Keeps :
      (array : Array) (name : String)
      → Keeps (Reading Anything base) (call env (force_remove_vlun array name))
  unfolding call
  force-Keeps array name = record {
    at = λ s h. elim (Option-cases (env.outcome (force_remove_vlun array name) s.calls)) [
      | inl e ↦
          rw (e, call)
            (more_calls Anything (force_remove_vlun array name) tt (λ m q. q) refl h.0, h.1)
      | inr (x, e) ↦
          rw (e, call)
            (more_calls Anything (force_remove_vlun array name) tt (λ m q. q) refl h.0, h.1)
    ];
  }

  get_rcg-Keeps :
      (array : Array) (name : String)
      → Keeps (Reading Anything base) (call env (get_rcg array name))
  unfolding call
  get_rcg-Keeps array name = record {
    at = λ s h. elim (Option-cases (env.outcome (get_rcg array name) s.calls)) [
      | inl e ↦ rw (e, call) (more_calls Anything (get_rcg array name) tt (λ m q. q) refl h.0, h.1)
      | inr (x, e) ↦
          rw (e, call) (more_calls Anything (get_rcg array name) tt (λ m q. q) refl h.0, h.1)
    ];
  }

  fetch_rcg-Keeps :
      (array : Array) (name : String) → Keeps (Reading Anything base) (fetch_rcg env array name)
  unfolding fetch_rcg ask
  fetch_rcg-Keeps array name = search (keeps_rules, get_rcg-Keeps)

  or_raise-Keeps : {A : Type 0} (r : Result A) → Keeps (Reading Anything base) (or_raise r)
  unfolding or_raise
  or_raise-Keeps (Result.ok a) = search keeps_rules
  or_raise-Keeps (Result.err e) = search keeps_rules

  get_target_driver-Keeps :
      (info : RcgInfo) → Keeps (Reading Anything base) (get_target_driver env info)
  unfolding get_target_driver
  get_target_driver-Keeps lock_failure_text = search keeps_rules
  get_target_driver-Keeps (rcg_info local remote) =
      search (keeps_rules, fetch_rcg-Keeps, or_raise-Keeps)

  force_remove_replicated-Keeps :
      (config : Config) (name : String) (info : RcgInfo)
      → Keeps (Reading Anything base) (force_remove_replicated env config name info)
  unfolding force_remove_replicated
  force_remove_replicated-Keeps config name info =
      search (keeps_rules, force-Keeps, get_target_driver-Keeps)

  pub force_remove_for-Keeps :
      (config : Config) (name : String) (rcg : Option RcgInfo)
      → Keeps (Reading Anything base) (force_remove_for env config name rcg)
  unfolding force_remove_for
  force_remove_for-Keeps config name none = force-Keeps primary name
  force_remove_for-Keeps config name (some info) =
      search (keeps_rules, force-Keeps, force_remove_replicated-Keeps)

  on_primary :
      (name : String)
      → Reaches
          (Reading Anything base)
          (λ u. Reading (Made (force_remove_vlun primary name)) base)
          (call env (force_remove_vlun primary name))
  on_primary name = call-Reading _ primary name (λ made q. inl refl)

  on_both :
      (name : String)
      → Reaches
          (Reading Anything base)
          (λ u.
            Reading
              (λ made.
                Made (force_remove_vlun primary name) made
                × Made (force_remove_vlun secondary name) made)
              base)
          (call env (force_remove_vlun primary name) >>= λ u.
            call env (force_remove_vlun secondary name))
  on_both name =
      Reaches-bind (λ u. Reading (Made (force_remove_vlun primary name)) base) _ _ (on_primary name)
        (λ u. call-Reading _ secondary name (λ made q. (inr q, inl refl)))

  on_target :
      (name : String) (info : RcgInfo)
      → Reaches
          (Reading Anything base)
          (λ u. Reading (λ made. (array : Array) × Made (force_remove_vlun array name) made) base)
          (try_else
            (get_target_driver env info >>= λ array. call env (force_remove_vlun array name))
            (λ e. raise (force_remove_vlun_failed name))
            pure)
  on_target name info =
      Reaches-try (λ u. Reading _ base) _ _ _
        (Reaches-bind (λ d. Reading Anything base) _ _
          (Reaches-Keeps _ (get_target_driver-Keeps info))
          (λ array. call-Reading _ array name (λ made q. (array, inl refl))))
        (λ e. Reaches-raise _ _) (λ u. Reaches-pure _ _ (λ s q. q))

  pub force_remove_for-Removed :
      (config : Config) (name : String) (rcg : Option RcgInfo)
      → Reaches
          (Reading Anything base)
          (λ u. Reading (Removed config rcg name) base)
          (force_remove_for env config name rcg)
  unfolding force_remove_for force_remove_replicated
  force_remove_for-Removed config name none = on_primary name
  force_remove_for-Removed config name (some info) =
      by_config config.replication config.quorum_witness refl refl
    where
      by_config :
          (replication witness : Bool)
          → config.replication ≡ replication
          → config.quorum_witness ≡ witness
          → Reaches
              (Reading Anything base)
              (λ u. Reading (Removed config (some info) name) base)
              (force_remove_for env config name (some info))
      by_config false witness e q = rw e (on_primary name)
      by_config true true e q = rw (e, q) (on_both name)
      by_config true false e q = rw (e, q) (on_target name info)
