-- ===== src/File/Mount/Records.antt =====
-- What a mount and an unmount of file_manager.py leave in the record of a share.
use python_hpedockerplugin.Prelude.{
  String, ◌≡◌, sym, ap, ◌∙◌, subst, Bool, true, false, ◌&&◌, Option, none, some, List, [], ◌∷◌,
  ◌++◌, contains, lookup, insert, remove_key, is_empty, lookup-insert, arith, eq_iff, eq_refl,
}
use python_hpedockerplugin.IpPool.{remove_first}
use python_hpedockerplugin.File.{
  Status, creating, failed, available, unknown, Share, save_share, Env, State, ok, made, effect,
}
use python_hpedockerplugin.File.Returns.{
  Returns, Returns-pure, Returns-if, Returns-bind, Returns-call, Returns-call-pure,
  Returns-then_pure,
}
use python_hpedockerplugin.File.Mount.{
  Host, Reply, mounted, unmounted, Permissions, user_grp_perm, nodes_of, ids_on, attached, detached,
  some_unless_empty, mount_here, save_mounted, first_on_node, mount_available, mount_in_state,
  mount_share, detach, unmount_share,
}

pub remove_key-insert :
    (key : String) (value : List String) (dict : List (String × List String))
    → lookup key dict ≡ none
    → remove_key key (insert key value dict) ≡ dict
unfolding lookup insert remove_key
remove_key-insert key value [] absent = ground (arith, eq_refl key)
remove_key-insert key value ((k, v) ∷ dict) absent =
    ground (arith, remove_key-insert key value dict, eq_iff k key)

pub remove_first-append :
    (x : String) (xs : List String) → contains x xs ≡ false → remove_first x (xs ++ x ∷ []) ≡ xs
unfolding contains remove_first
remove_first-append x [] absent = ground (arith, eq_refl x)
remove_first-append x (y ∷ ys) absent = ground (arith, remove_first-append x ys)

single-contains : (x : String) → contains x (x ∷ []) ≡ true
unfolding contains
single-contains x = ground (arith, eq_refl x)

single-remove_first : (x : String) → is_empty (remove_first x (x ∷ [])) ≡ true
unfolding remove_first
single-remove_first x = ground (arith, eq_refl x)

-- This node does not have the share mounted, and no empty dictionary is stored.
pub record IsElsewhere (host : Host) (share : Share) : Type 0 where
  pub not_here : lookup host.node_id (nodes_of share) ≡ none
  pub not_a_client : contains host.my_ip share.client_ips ≡ false
  pub stored : share.path_info ≡ some_unless_empty (nodes_of share)

detached-attached :
    (host : Host) (share : Share) (mount_id : String)
    → IsElsewhere host share
    → detached host (attached host share mount_id) ≡ share
detached-attached host share mount_id h =
    ap
      (λ ips. record share {
        client_ips = ips;
        path_info =
            some_unless_empty
              (remove_key host.node_id (insert host.node_id (mount_id ∷ []) (nodes_of share)));
      })
      (remove_first-append host.my_ip share.client_ips h.not_a_client)
    ∙ ap (λ nodes. record share { path_info = some_unless_empty nodes })
        (remove_key-insert host.node_id (mount_id ∷ []) (nodes_of share) h.not_here)
    ∙ ap (λ p. record share { path_info = p }) (sym h.stored)

-- etcd has this record of the share.
abbrev pub IsHeld : Share → State → Type 0
IsHeld share s = lookup share.name s.shares ≡ some share

saved-IsHeld :
    (share : Share) (s : State)
    → IsHeld share (made (save_share share) (effect (save_share share) s))
saved-IsHeld share s =
    ground (arith, lookup-insert share.name share.name share s.shares, eq_refl share.name)

-- Where the answer is that the share is mounted, etcd has the record.
abbrev pub OnMounted : Share → Reply → State → Type 0
OnMounted share (mounted mount_dir share_path) s = IsHeld share s
OnMounted share reply s = Unit

module _ (env : Env) (host : Host) (share : Share) (mount_id : String) where
  save_mounted-IsHeld :
      (mount_dir share_path : String) (refused : Bool)
      → Returns
          (OnMounted (attached host share mount_id))
          (save_mounted env host share mount_id mount_dir share_path refused)
  unfolding save_mounted
  save_mounted-IsHeld mount_dir share_path true = Returns-pure _ (λ s. tt)
  save_mounted-IsHeld mount_dir share_path false =
      Returns-call-pure env _ _ _ (saved-IsHeld (attached host share mount_id))

  mount_here-IsHeld :
      (asked : Bool) (mount_dir share_path : String) (permissions : Permissions)
      → Returns
          (OnMounted (attached host share mount_id))
          (mount_here env host asked share mount_id mount_dir share_path permissions)
  unfolding mount_here
  mount_here-IsHeld asked mount_dir share_path permissions = Returns-bind _ _ λ a.
      Returns-bind _ _ λ b.
        Returns-bind _ _
          λ c. Returns-bind _ _ λ refused. save_mounted-IsHeld mount_dir share_path refused

  first_on_node-IsHeld :
      (mount_dir share_path : String) (permissions : Permissions)
      → Returns
          (OnMounted (attached host share mount_id))
          (first_on_node env host share mount_id mount_dir share_path permissions)
  unfolding first_on_node
  first_on_node-IsHeld mount_dir share_path permissions =
      Returns-if (user_grp_perm permissions && is_empty (nodes_of share)) _ _
        (λ asked. Returns-bind _ _ λ known.
          Returns-if known _ _ (λ h. mount_here-IsHeld true mount_dir share_path permissions)
            (λ h. Returns-pure _ (λ s. tt)))
        (λ not_asked. mount_here-IsHeld false mount_dir share_path permissions)

  mount_available-IsHeld :
      is_empty (ids_on host.node_id (nodes_of share)) ≡ true
      → Returns (OnMounted (attached host share mount_id)) (mount_available env host share mount_id)
  unfolding mount_available
  mount_available-IsHeld nowhere = Returns-bind _ _ λ owner. Returns-bind _ _ λ share_path.
      Returns-if (is_empty (ids_on host.node_id (nodes_of share))) _ _
        (λ h. first_on_node-IsHeld _ share_path _) (λ here. cc)

  mount_in_state-IsHeld :
      (status : Option Status)
      → is_empty (ids_on host.node_id (nodes_of share)) ≡ true
      → Returns
          (OnMounted (attached host share mount_id))
          (mount_in_state env host status share mount_id)
  unfolding mount_in_state
  mount_in_state-IsHeld (some failed) nowhere = Returns-pure _ (λ s. tt)
  mount_in_state-IsHeld (some creating) nowhere = Returns-pure _ (λ s. tt)
  mount_in_state-IsHeld (some (unknown text)) nowhere = Returns-pure _ (λ s. tt)
  mount_in_state-IsHeld (some available) nowhere = mount_available-IsHeld nowhere
  mount_in_state-IsHeld none nowhere = mount_available-IsHeld nowhere

  detach-IsHeld : Returns (λ u. IsHeld (detached host share)) (detach env host share)
  unfolding detach
  detach-IsHeld = Returns-bind _ _ λ a. Returns-bind _ _ λ b.
      Returns-bind _ _
        λ c. Returns-bind _ _ λ d. Returns-call env _ _ (saved-IsHeld (detached host share))

-- The last unmount of a share on a node leaves its record without the node.
unmount_share-IsHeld :
    (env : Env) (host : Host) (share : Share) (mount_id : String)
    → contains mount_id (ids_on host.node_id (nodes_of share)) ≡ true
    → is_empty (remove_first mount_id (ids_on host.node_id (nodes_of share))) ≡ true
    → Returns (λ r. IsHeld (detached host share)) (unmount_share env host share mount_id)
unfolding unmount_share
unmount_share-IsHeld env host share mount_id here last =
    Returns-if (contains mount_id (ids_on host.node_id (nodes_of share))) _ _
      (λ inside. Returns-then_pure _ _ (
        Returns-if (is_empty (remove_first mount_id (ids_on host.node_id (nodes_of share)))) _ _
          (λ h. detach-IsHeld env host share mount_id) (λ more. cc)))
      (λ outside. cc)

ids_of_attached :
    (host : Host) (share : Share) (mount_id : String)
    → ids_on host.node_id (nodes_of (attached host share mount_id)) ≡ mount_id ∷ []
ids_of_attached host share mount_id = ground (
  arith,
  lookup-insert host.node_id host.node_id (mount_id ∷ []) (nodes_of share),
  eq_refl host.node_id,
)

-- The first mount of a share on a node, and the unmount with the same id: where both succeed, etcd has
-- after the mount the record with the node's address and the mount id, and after the unmount the record
-- of before, whatever other nodes have the share mounted.
pub unmount_share-mount_share :
    (env : Env) (host : Host) (share : Share) (mount_id mount_dir share_path : String)
    (before between : State)
    → IsElsewhere host share
    → (mount_share env host share mount_id before).0 ≡ ok (mounted mount_dir share_path)
    → (unmount_share env host (attached host share mount_id) mount_id between).0 ≡ ok unmounted
    → IsHeld (attached host share mount_id) (mount_share env host share mount_id before).1
      × IsHeld share (unmount_share env host (attached host share mount_id) mount_id between).1
unfolding mount_share
unmount_share-mount_share env host share mount_id mount_dir share_path before between elsewhere went
      left =
    let ids = ids_of_attached host share mount_id in
    (
      (mount_in_state-IsHeld env host share mount_id share.status
            (ground (arith, elsewhere.not_here))).at
          before (mounted mount_dir share_path) went,
      subst
          (λ r. IsHeld r (unmount_share env host (attached host share mount_id) mount_id between).1)
          (detached-attached host share mount_id elsewhere)
          ((unmount_share-IsHeld env host (attached host share mount_id) mount_id
              (subst (λ l. contains mount_id l ≡ true) (sym ids) (single-contains mount_id))
              (subst (λ l. is_empty (remove_first mount_id l) ≡ true) (sym ids)
                (single-remove_first mount_id))).at
            between unmounted left),
    )
