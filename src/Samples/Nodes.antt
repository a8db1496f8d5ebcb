-- ===== src/Samples/Nodes.antt =====
-- The theorems on the backends of volumes, on addresses and on snapshot lists, at concrete inputs.
use python_hpedockerplugin.Prelude.{
  ◌≡◌, refl, String, Bool, true, none, List, [], ◌∷◌, contains, is_some, lookup, insert, remove_key,
  str_eq, eq_refl, eq_iff, false,
}
use python_hpedockerplugin.Volume.{Snapshot}
use python_hpedockerplugin.Samples.{working}
use python_hpedockerplugin.Names.{get_3par_name, get_3par_snap_name, encode_name}
use python_hpedockerplugin.Orchestrator.Steps.{
  Node, init, on_orchestrator, written, deleted, with_stale, Reach, started, later, initialized,
  created, looked_up, began_removal, record_deleted,
}
use python_hpedockerplugin.Orchestrator.{
  finish_initialization, get_volume_backend_details, volumedriver_remove, execute_request,
}
use python_hpedockerplugin.Orchestrator.Agrees.{IsConsistent}
use python_hpedockerplugin.Orchestrator.Cache.{Reach-IsConsistent}
use python_hpedockerplugin.IpPool.{BackendMetadata}
use python_hpedockerplugin.IpPool.Refinement.{
  Event, claims, marks, gives_back, IsProper, apply_all, specified_all, state_of,
  apply_all-specified_all,
}
use python_hpedockerplugin.Manager.Inspect.{remove_snapshots, get_snapshots_to_be_deleted}
use python_hpedockerplugin.Manager.Inspect.Sync.{kept, remove_snapshots-get_snapshots_to_be_deleted}

abbrev at_start : Node
at_start = init ("DEFAULT" ∷ "array1" ∷ []) []

abbrev with_volume : Node
with_volume =
    on_orchestrator (written "disk" "array1")
      (on_orchestrator (finish_initialization "array1" true) at_start)

abbrev after_lookup : Node
after_lookup = on_orchestrator (λ o. (get_volume_backend_details "DEFAULT" "disk" o).1) with_volume

abbrev while_removing : Node
while_removing = record {
  orchestrator = (volumedriver_remove "DEFAULT" "disk" after_lookup.orchestrator).1;
  stale = with_stale "disk" false after_lookup.stale;
}

abbrev after_removal : Node
after_removal = record {
  orchestrator = deleted "disk" while_removing.orchestrator;
  stale =
      with_stale "disk" (is_some (lookup "disk" while_removing.orchestrator.volume_backends_map))
        while_removing.stale;
}

removal_reached : Reach "DEFAULT" ("DEFAULT" ∷ "array1" ∷ []) [] after_removal
unfolding lookup finish_initialization
removal_reached =
    later
      (later
        (later (later (later started (initialized "array1" true)) (created "disk" "array1" refl))
          (looked_up "disk"))
        (began_removal "disk"))
      (record_deleted "disk")

not_stale : after_removal.stale "disk" ≡ false
unfolding lookup remove_key insert volumedriver_remove execute_request get_volume_backend_details
    finish_initialization
not_stale = refl

Reach-IsConsistent_example : IsConsistent after_removal
Reach-IsConsistent_example =
    Reach-IsConsistent "DEFAULT" ("DEFAULT" ∷ "array1" ∷ []) [] after_removal removal_reached

abbrev no_addresses : BackendMetadata
no_addresses = record {
  ips_in_use = [];
  ips_locked_for_use = [];
  counter = none;
  default_fpgs = none;
}

abbrev events : List Event
events = claims "10.0.0.1" ∷ claims "10.0.0.2" ∷ marks "10.0.0.1" ∷ gives_back "10.0.0.2" ∷ []

proper : IsProper no_addresses
unfolding contains
proper = record { in_use = tt; locked_ips = tt; apart = λ ip e. refl }

apply_all-specified_all_example :
    IsProper (apply_all events no_addresses)
    × (state_of (apply_all events no_addresses) ≡ specified_all events (state_of no_addresses))
unfolding contains
apply_all-specified_all_example =
    apply_all-specified_all events no_addresses proper (refl, (refl, (refl, (tt, tt))))

abbrev snapshot : String → Snapshot
snapshot id = record {
  name = id;
  id = id;
  parent_name = "disk";
  parent_id = "d1";
  fs_mode = none;
  fs_owner = none;
  expiration_hours = none;
  retention_hours = none;
  snap_schedule = none;
}

abbrev same : Snapshot → Snapshot → Bool
same s t = str_eq s.id t.id

remove_snapshots-get_snapshots_to_be_deleted_example :
    remove_snapshots same
      (get_snapshots_to_be_deleted working same
        (snapshot "s1" ∷ snapshot "s2" ∷ [])
        ("dcs-s2" ∷ []))
      (snapshot "s1" ∷ snapshot "s2" ∷ [])
    ≡ kept working same ("dcs-s2" ∷ []) (snapshot "s1" ∷ snapshot "s2" ∷ [])
remove_snapshots-get_snapshots_to_be_deleted_example =
    remove_snapshots-get_snapshots_to_be_deleted working same ("dcs-s2" ∷ [])
      (snapshot "s1" ∷ snapshot "s2" ∷ []) (λ ss. eq_refl ss.id) (λ s t. (eq_iff s.id t.id).0)

abbrev s1_kept : List Snapshot
s1_kept = kept working same ("dcs-s2" ∷ []) (snapshot "s1" ∷ snapshot "s2" ∷ [])

s2_is_left : s1_kept ≡ snapshot "s2" ∷ []
unfolding kept contains get_3par_snap_name get_3par_name encode_name
s2_is_left = refl
