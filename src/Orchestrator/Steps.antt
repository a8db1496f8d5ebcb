-- ===== src/Orchestrator/Steps.antt =====
-- The events that change what the orchestrator of one node holds, or what the records in etcd say, one
-- at a time. A removal is handed to a thread: it begins with the look-up and the loss of the cached
-- entry. The deletion of the record is an event of its own, at any time and as often as may be: the
-- thread makes it, another node's removal in the shared etcd does, and so does the synchronisation
-- that drops the records of snapshots which the array no longer has.
use python_hpedockerplugin.Prelude.{
  String, ◌≡◌, Bool, true, false, none, some, List, [], is_some, lookup, insert, remove_key, str_eq,
  if◌then◌else◌,
}
use python_hpedockerplugin.Orchestrator.{
  Meta, Orchestrator, initialize_manager_objects, finish_initialization, get_volume_backend_details,
  volumedriver_remove, add_cache_entry,
}

pub record Node : Type 0 where
  pub orchestrator : Orchestrator
  -- whether a name's record was deleted while this node had its backend cached, with no removal of
  -- it begun on this node since: no part of the program's state
  pub stale : String → Bool

abbrev pub init : List String → List (String × Meta) → Node
init backends volumes = record {
  orchestrator = record {
    managers = initialize_manager_objects backends;
    volume_backends_map = [];
    volumes = volumes;
  };
  stale = λ name. false;
}

abbrev pub on_orchestrator : (Orchestrator → Orchestrator) → Node → Node
on_orchestrator f node = record node { orchestrator = f node.orchestrator }

-- What a manager writes: the record of a new volume, and the deletion of one.
abbrev pub written : String → String → Orchestrator → Orchestrator
written name backend orchestrator = record orchestrator {
  volumes =
      insert name (record { has_display_name = true; backend = some backend }) orchestrator.volumes;
}

abbrev pub deleted : String → Orchestrator → Orchestrator
deleted name orchestrator = record orchestrator { volumes = remove_key name orchestrator.volumes }

-- What `stale` says after an event on one name.
abbrev pub with_stale : String → Bool → (String → Bool) → String → Bool
with_stale name now stale asked = if str_eq name asked then now else stale asked

module _ (def_backend_name : String) where
  pub data Step : Node → Node → Type 0 where
    initialized :
        {node : Node} (backend : String) (got_manager : Bool)
        → Step node (on_orchestrator (finish_initialization backend got_manager) node)
    -- a request that looks the backend up: a mount, an unmount, a snapshot, a clone, an inspection
    looked_up :
        {node : Node} (name : String)
        → Step node
            (on_orchestrator (λ o. (get_volume_backend_details def_backend_name name o).1) node)
    -- on this node or on another one
    created :
        {node : Node} (name backend : String)
        → lookup name node.orchestrator.volumes ≡ none
        → Step node (on_orchestrator (written name backend) node)
    imported :
        {node : Node} (name backend : String)
        → lookup name node.orchestrator.volumes ≡ none
        → Step node (
            on_orchestrator
              (λ o. (add_cache_entry def_backend_name name (written name backend o)).1)
              node)
    -- an import that wrote no record
    import_failed :
        {node : Node} (name : String)
        → Step node (on_orchestrator (λ o. (add_cache_entry def_backend_name name o).1) node)
    began_removal :
        {node : Node} (name : String)
        → Step node (record {
          orchestrator = (volumedriver_remove def_backend_name name node.orchestrator).1;
          stale = with_stale name false node.stale;
        })
    record_deleted :
        {node : Node} (name : String)
        → Step node (record {
          orchestrator = deleted name node.orchestrator;
          stale =
              with_stale name
                (is_some (lookup name node.orchestrator.volume_backends_map))
                node.stale;
        })

  -- The nodes that a start on the given backends and volumes leads to.
  pub data Reach (backends : List String) (volumes : List (String × Meta)) : Node → Type 0 where
    started : Reach backends volumes (init backends volumes)
    later :
        {before after : Node}
        → Reach backends volumes before
        → Step before after
        → Reach backends volumes after
