-- ===== src/Orchestrator/Cache.antt =====
-- What the cache of backend_orchestrator.py remembers, over all runs of a node.
use python_hpedockerplugin.Prelude.{
  String, ◌≡◌, refl, sym, subst, ◌⊎◌, inl, inr, Bool, true, false, none, List, lookup, insert,
  Bool-cases, Option-cases,
}
use python_hpedockerplugin.Orchestrator.{
  Meta, Orchestrator, finish_initialization, get_meta_data_by_name, cache_backend, add_cache_entry,
  get_volume_backend_details, volumedriver_remove, execute_request,
}
use python_hpedockerplugin.Orchestrator.Steps.{
  Node, on_orchestrator, written, with_stale, Step, initialized, looked_up, created, imported,
  import_failed, began_removal, record_deleted, Reach, started, later,
}
use python_hpedockerplugin.Orchestrator.Agrees.{
  Records, Agrees, ManagersFit, IsConsistent, initialize-ManagersFit, finish-ManagersFit,
  insert-Agrees, forgotten-Agrees, written-Agrees, deleted-Agrees,
}

module _ (def_backend_name : String) where
  -- A look-up changes at most the cached backend of one name, to what its record says.
  abbrev Remembers : String → Orchestrator → Orchestrator → Type 0
  Remembers name before after =
      (after ≡ before)
      ⊎ ((backend : String) × (Records name backend (lookup name before.volumes)
            × (after ≡ record before {
              volume_backends_map = insert name backend before.volume_backends_map;
            })))

  add_cache_entry-Remembers :
      (name : String) (o : Orchestrator)
      → Remembers name o (add_cache_entry def_backend_name name o).1
  unfolding add_cache_entry get_meta_data_by_name cache_backend
  add_cache_entry-Remembers name o = elim (Option-cases (lookup name o.volumes)) [
    | inl e ↦ rw (e, add_cache_entry) (inl refl)
    | inr (meta, e) ↦ elim (Bool-cases meta.has_display_name) [
      | inr unnamed ↦ rw (e, unnamed, add_cache_entry) (inl refl)
      | inl named ↦ elim (Option-cases meta.backend) [
        | inl b ↦ rw (e, named, b, add_cache_entry) (inl refl)
        | inr (backend, b) ↦
            inr (backend, (rw e (named, b), rw (e, named, b, add_cache_entry) refl))
      ]
    ]
  ]

  details-Remembers :
      (name : String) (o : Orchestrator)
      → Remembers name o (get_volume_backend_details def_backend_name name o).1
  unfolding get_volume_backend_details
  details-Remembers name o = elim (Option-cases (lookup name o.volume_backends_map)) [
    | inl e ↦ rw (e, get_volume_backend_details) (add_cache_entry-Remembers name o)
    | inr (backend, e) ↦ rw (e, get_volume_backend_details) (inl refl)
  ]

  Remembers-Agrees :
      (name : String) (stale : String → Bool) (o after : Orchestrator)
      → Remembers name o after
      → Agrees stale o.volume_backends_map o.volumes
      → Agrees stale after.volume_backends_map after.volumes × (after.managers ≡ o.managers)
  Remembers-Agrees name stale o after (inl same) agrees =
      subst (λ x. Agrees stale x.volume_backends_map x.volumes × (x.managers ≡ o.managers))
        (sym same) (agrees, refl)
  Remembers-Agrees name stale o after (inr (backend, (records, same))) agrees =
      subst (λ x. Agrees stale x.volume_backends_map x.volumes × (x.managers ≡ o.managers))
        (sym same) (insert-Agrees name stale _ _ agrees backend records, refl)

  Remembers-IsConsistent :
      (name : String) (node : Node) (o : Orchestrator)
      → Remembers name node.orchestrator o
      → IsConsistent node
      → IsConsistent (record node { orchestrator = o })
  Remembers-IsConsistent name node o remembers h =
      let (cached, same) =
        Remembers-Agrees name node.stale node.orchestrator o remembers h.cached in
      record { cached = cached; managers = subst ManagersFit (sym same) h.managers }

  began-IsConsistent :
      (name : String) (node : Node)
      → IsConsistent node
      → IsConsistent (record {
        orchestrator = (volumedriver_remove def_backend_name name node.orchestrator).1;
        stale = with_stale name false node.stale;
      })
  unfolding volumedriver_remove execute_request
  began-IsConsistent name node h =
      let (cached, same) =
        Remembers-Agrees name node.stale node.orchestrator _
          (details-Remembers name node.orchestrator) h.cached in
      record {
        cached = forgotten-Agrees name node.stale _ _ cached;
        managers = subst ManagersFit (sym same) h.managers;
      }

  written-IsConsistent :
      (name backend : String) (node : Node)
      → lookup name node.orchestrator.volumes ≡ none
      → IsConsistent node
      → IsConsistent (on_orchestrator (written name backend) node)
  written-IsConsistent name backend node absent h = record {
    cached = written-Agrees name node.stale _ _ h.cached _ absent;
    managers = h.managers;
  }

  initialized-IsConsistent :
      (backend : String) (got_manager : Bool) (node : Node)
      → IsConsistent node
      → IsConsistent (on_orchestrator (finish_initialization backend got_manager) node)
  unfolding finish_initialization
  initialized-IsConsistent backend true node h = record {
    cached = h.cached;
    managers = finish-ManagersFit backend true node.orchestrator h.managers;
  }
  initialized-IsConsistent backend false node h = record {
    cached = h.cached;
    managers = finish-ManagersFit backend false node.orchestrator h.managers;
  }

  Step-IsConsistent :
      {before after : Node}
      → Step def_backend_name before after
      → IsConsistent before
      → IsConsistent after
  Step-IsConsistent {before} (initialized backend got_manager) h =
      initialized-IsConsistent backend got_manager before h
  Step-IsConsistent {before} (looked_up name) h =
      Remembers-IsConsistent name before _ (details-Remembers name before.orchestrator) h
  Step-IsConsistent {before} (created name backend absent) h =
      written-IsConsistent name backend before absent h
  Step-IsConsistent {before} (imported name backend absent) h =
      Remembers-IsConsistent name (on_orchestrator (written name backend) before) _
        (add_cache_entry-Remembers name (written name backend before.orchestrator))
        (written-IsConsistent name backend before absent h)
  Step-IsConsistent {before} (import_failed name) h =
      Remembers-IsConsistent name before _ (add_cache_entry-Remembers name before.orchestrator) h
  Step-IsConsistent {before} (began_removal name) h = began-IsConsistent name before h
  Step-IsConsistent {before} (record_deleted name) h = record {
    cached = deleted-Agrees name before.stale _ _ h.cached;
    managers = h.managers;
  }

-- On every node, whatever it and the other nodes create, import, look up, begin to remove and delete,
-- in any order: a cached backend is that of the volume's record, unless the record was deleted while
-- it was cached and no removal of the volume has begun on this node since; and a backend that has an
-- entry has a manager exactly where its initialisation ended well.
pub Reach-IsConsistent :
    (def_backend_name : String) (backends : List String) (volumes : List (String × Meta))
    (node : Node)
    → Reach def_backend_name backends volumes node
    → IsConsistent node
unfolding lookup
Reach-IsConsistent def_backend_name backends volumes node started = record {
  cached = λ name backend fresh e. cc;
  managers = initialize-ManagersFit backends;
}
Reach-IsConsistent def_backend_name backends volumes node (later reach step) =
    Step-IsConsistent def_backend_name step
      (Reach-IsConsistent def_backend_name backends volumes _ reach)
