-- ===== src/Unmount/Old.antt =====
-- The paths that fencing remembers, and what an unmount on the old node finds.
use python_hpedockerplugin.Prelude.{
  String, ◌≡◌, ◌≢◌, refl, Option, none, some, [], ◌∷◌, ◌++◌, lookup, remove_key, arith, eq_iff,
  eq_refl,
}
use python_hpedockerplugin.Volume.{PathInfo}
use python_hpedockerplugin.Mount.Fencing.{OldPaths, replace_old_path}
use python_hpedockerplugin.Unmount.{take_old_path}

take_old_path-append :
    (node_id : String) (path_info : Option PathInfo) (old : OldPaths)
    → take_old_path node_id (remove_key node_id old ++ (node_id, path_info) ∷ [])
      ≡ some (path_info, remove_key node_id old)
unfolding take_old_path remove_key
take_old_path-append node_id path_info [] = ground (arith, eq_refl node_id)
take_old_path-append node_id path_info ((n, p) ∷ old) =
    ground (arith, take_old_path-append node_id path_info old)

lookup-append_other :
    (node_id other : String) (path_info : Option PathInfo) (old : OldPaths)
    → node_id ≢ other
    → lookup other (remove_key node_id old ++ (node_id, path_info) ∷ []) ≡ lookup other old
unfolding lookup remove_key
lookup-append_other node_id other path_info [] differ = ground (arith, eq_iff node_id other)
lookup-append_other node_id other path_info ((n, p) ∷ old) differ = ground (
  arith,
  eq_iff n node_id,
  eq_iff n other,
  lookup-append_other node_id other path_info old differ,
)

take_old_path-absent :
    (node_id : String) (old : OldPaths) → take_old_path node_id (remove_key node_id old) ≡ none
unfolding take_old_path remove_key
take_old_path-absent node_id [] = refl
take_old_path-absent node_id ((n, p) ∷ old) = ground (arith, take_old_path-absent node_id old)

-- After a node's path has been remembered, whatever was remembered before, the unmount on that node
-- finds the newest path, and takes the only entry of the node away; the paths of all other nodes are
-- as before.
pub take_old_path-replace_old_path :
    (node_id : String) (path_info : Option PathInfo) (old : OldPaths)
    → (take_old_path node_id (replace_old_path node_id path_info old)
        ≡ some (path_info, remove_key node_id old))
      × ((take_old_path node_id (remove_key node_id old) ≡ none)
          × ((other : String)
              → node_id ≢ other
              → lookup other (replace_old_path node_id path_info old) ≡ lookup other old))
unfolding replace_old_path
take_old_path-replace_old_path node_id path_info old = (
  take_old_path-append node_id path_info old,
  (take_old_path-absent node_id old, λ other. lookup-append_other node_id other path_info old),
)
