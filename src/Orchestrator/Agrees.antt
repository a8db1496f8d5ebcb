-- ===== src/Orchestrator/Agrees.antt =====
-- What backend_orchestrator.py may hold: cached backends that the records name, stale ones excepted,
-- and managers that fit their states; how the changes of a dictionary keep it.
use python_hpedockerplugin.Prelude.{
  String, ◌≡◌, refl, sym, ap, ◌∙◌, subst, ◌↔◌, inl, inr, Bool, true, false, Option, none, some,
  List, [], ◌∷◌, is_some, lookup, insert, remove_key, str_eq, lookup-insert, lookup-remove_key,
  Bool-cases, arith, eq_iff,
}
use python_hpedockerplugin.Orchestrator.{
  ready, Manager, Meta, Orchestrator, initialize_manager_objects, finish_initialization,
}
use python_hpedockerplugin.Orchestrator.Steps.{Node, with_stale}

-- A record of the volume that names the backend.
abbrev pub Records : String → String → Option Meta → Type 0
Records name backend none = ⊥
Records name backend (some meta) = (meta.has_display_name ≡ true) × (meta.backend ≡ some backend)

-- The cached backends are those of the records, but for stale names.
abbrev pub Agrees : (String → Bool) → List (String × String) → List (String × Meta) → Type 0
Agrees stale cache volumes =
    (name backend : String)
    → stale name ≡ false
    → lookup name cache ≡ some backend
    → Records name backend (lookup name volumes)

-- A manager is there exactly where its backend is ready.
abbrev pub ManagersFit : List (String × Manager) → Type 0
ManagersFit managers =
    (backend : String) (manager : Manager)
    → lookup backend managers ≡ some manager
    → (manager.mgr ≡ true) ↔ (manager.backend_state ≡ ready)

pub record IsConsistent (node : Node) : Type 0 where
  pub cached : Agrees node.stale node.orchestrator.volume_backends_map node.orchestrator.volumes
  pub managers : ManagersFit node.orchestrator.managers

pub insert-ManagersFit :
    (name : String) (m : Manager) (managers : List (String × Manager))
    → (m.mgr ≡ true) ↔ (m.backend_state ≡ ready)
    → ManagersFit managers
    → ManagersFit (insert name m managers)
insert-ManagersFit name m managers fits all backend manager e =
    elim (Bool-cases (str_eq name backend)) [
      | inl same ↦
          subst (λ (x : Manager). (x.mgr ≡ true) ↔ (x.backend_state ≡ ready))
            (cc (e, lookup-insert name backend m managers, same)) fits
      | inr other ↦ all backend manager (cc (e, lookup-insert name backend m managers, other))
    ]

pub initialize-ManagersFit :
    (backends : List String) → ManagersFit (initialize_manager_objects backends)
unfolding initialize_manager_objects lookup
initialize-ManagersFit [] backend manager e = cc
initialize-ManagersFit (b ∷ rest) backend manager e =
    insert-ManagersFit b _ (initialize_manager_objects rest) ((λ e. cc), (λ e. cc))
      (initialize-ManagersFit rest) backend manager e

pub finish-ManagersFit :
    (backend : String) (got_manager : Bool) (o : Orchestrator)
    → ManagersFit o.managers
    → ManagersFit (finish_initialization backend got_manager o).managers
unfolding finish_initialization
finish-ManagersFit backend true o fits =
    insert-ManagersFit backend _ o.managers ((λ e. refl), (λ e. refl)) fits
finish-ManagersFit backend false o fits =
    insert-ManagersFit backend _ o.managers ((λ e. cc), (λ e. cc)) fits

module _ (name : String) (stale : String → Bool) (cache : List (String × String))
    (volumes : List (String × Meta)) (agrees : Agrees stale cache volumes) where
  -- Remembering what a record says.
  pub insert-Agrees :
      (backend : String)
      → Records name backend (lookup name volumes)
      → Agrees stale (insert name backend cache) volumes
  insert-Agrees backend records asked b fresh e = elim (Bool-cases (str_eq name asked)) [
    | inl same ↦
        let n = (eq_iff name asked).0 same in
        let found : backend ≡ b = cc (e, lookup-insert name asked backend cache, same) in
        subst (λ x. Records asked x (lookup asked volumes)) found
          (subst (λ x. Records x backend (lookup x volumes)) n records)
    | inr other ↦ agrees asked b fresh (cc (e, lookup-insert name asked backend cache, other))
  ]

  -- Forgetting a name ends its being stale.
  pub forgotten-Agrees : Agrees (with_stale name false stale) (remove_key name cache) volumes
  forgotten-Agrees asked b fresh e = elim (Bool-cases (str_eq name asked)) [
    | inl same ↦ cc (e, lookup-remove_key name asked cache, same)
    | inr other ↦ agrees asked b (ground arith) (ground (arith, lookup-remove_key name asked cache))
  ]

  pub written-Agrees :
      (meta : Meta) → lookup name volumes ≡ none → Agrees stale cache (insert name meta volumes)
  written-Agrees meta absent asked b fresh e = elim (Bool-cases (str_eq name asked)) [
    | inl same ↦ absurd (
        subst (Records asked b)
          (ap (λ x. lookup x volumes) (sym ((eq_iff name asked).0 same)) ∙ absent)
          (agrees asked b fresh e))
    | inr other ↦
        subst (Records asked b) (cc (lookup-insert name asked meta volumes, other))
          (agrees asked b fresh e)
  ]

  pub deleted-Agrees :
      Agrees (with_stale name (is_some (lookup name cache)) stale) cache (remove_key name volumes)
  deleted-Agrees asked b fresh e = elim (Bool-cases (str_eq name asked)) [
    | inl same ↦ absurd (cached_name ((eq_iff name asked).0 same) same)
    | inr other ↦
        subst (Records asked b) (cc (lookup-remove_key name asked volumes, other))
          (agrees asked b (ground arith) e)
  ]
    where
      cached_name : name ≡ asked → str_eq name asked ≡ true → ⊥
      cached_name same e1 =
          let found : lookup name cache ≡ some b = ap (λ x. lookup x cache) same ∙ e in ground arith
