-- ===== src/Unmount/Ids.antt =====
-- The mount ids of a node: unmounting takes away what mounting added.
use python_hpedockerplugin.Prelude.{
  String, ◌≡◌, refl, false, ◌||◌, List, [], ◌∷◌, ◌++◌, str_eq, contains, Bool-cases, inl, inr,
  arith, eq_iff, eq_refl,
}
use python_hpedockerplugin.Mount.{add_mount_id}
use python_hpedockerplugin.Unmount.{remove_mount_id}

-- No mount id stands twice in the list.
abbrev pub IsUnique : List String → Type 0
IsUnique [] = Unit
IsUnique (i ∷ ids) = (contains i ids ≡ false) × IsUnique ids

contains-append_one :
    (k id : String) (ids : List String)
    → contains k (ids ++ id ∷ []) ≡ (contains k ids || str_eq id k)
unfolding contains
contains-append_one k id [] = ground arith
contains-append_one k id (i ∷ ids) = ground (arith, contains-append_one k id ids)

append_one-IsUnique :
    (id : String) (ids : List String)
    → IsUnique ids
    → contains id ids ≡ false
    → IsUnique (ids ++ id ∷ [])
unfolding contains
append_one-IsUnique id [] unique new = (refl, tt)
append_one-IsUnique id (i ∷ ids) unique new = (
  ground (arith, contains-append_one i id ids, eq_iff i id, eq_iff id i),
  append_one-IsUnique id ids unique.1 (ground arith),
)

-- Mounting keeps the ids of a node without duplicates.
add_mount_id-IsUnique :
    (id : String) (ids : List String) → IsUnique ids → IsUnique (add_mount_id id ids)
unfolding add_mount_id
add_mount_id-IsUnique id ids unique = elim (Bool-cases (contains id ids)) [
  | inl e ↦ rw (e, add_mount_id) unique
  | inr e ↦ rw (e, add_mount_id) (append_one-IsUnique id ids unique e)
]

remove_mount_id-absent :
    (id : String) (ids : List String) → contains id ids ≡ false → remove_mount_id id ids ≡ ids
unfolding contains remove_mount_id
remove_mount_id-absent id [] absent = refl
remove_mount_id-absent id (i ∷ ids) absent = ground (arith, remove_mount_id-absent id ids)

remove_mount_id-append :
    (id : String) (ids : List String)
    → contains id ids ≡ false
    → remove_mount_id id (ids ++ id ∷ []) ≡ ids
unfolding contains remove_mount_id
remove_mount_id-append id [] new = ground (arith, eq_refl id)
remove_mount_id-append id (i ∷ ids) new = ground (arith, remove_mount_id-append id ids)

remove_mount_id-contains :
    (k id : String) (ids : List String)
    → contains k ids ≡ false
    → contains k (remove_mount_id id ids) ≡ false
unfolding contains remove_mount_id
remove_mount_id-contains k id [] absent = refl
remove_mount_id-contains k id (i ∷ ids) absent = ground (arith, remove_mount_id-contains k id ids)

remove_mount_id-gone :
    (id : String) (ids : List String) → IsUnique ids → contains id (remove_mount_id id ids) ≡ false
unfolding contains remove_mount_id
remove_mount_id-gone id [] unique = refl
remove_mount_id-gone id (i ∷ ids) unique =
    ground (arith, eq_iff i id, unique.0, remove_mount_id-gone id ids unique.1)

remove_mount_id-again :
    (id : String) (ids : List String)
    → remove_mount_id id (add_mount_id id ids) ≡ remove_mount_id id ids
unfolding add_mount_id
remove_mount_id-again id ids = elim (Bool-cases (contains id ids)) [
  | inl e ↦ rw e refl
  | inr e ↦ rw (e, remove_mount_id-append id ids e, remove_mount_id-absent id ids e) refl
]

-- In a list of ids without duplicates, mounting with an id and unmounting with it leaves the ids of
-- before, without that id: other containers on the node keep the volume, and no id is left over that
-- would keep it mounted for ever.
pub remove_mount_id-add_mount_id :
    (id : String) (ids : List String)
    → IsUnique ids
    → (remove_mount_id id (add_mount_id id ids) ≡ remove_mount_id id ids)
      × ((contains id (remove_mount_id id (add_mount_id id ids)) ≡ false)
          × IsUnique (add_mount_id id ids))
remove_mount_id-add_mount_id id ids unique = (
  remove_mount_id-again id ids,
  (
    remove_mount_id-gone id (add_mount_id id ids) (add_mount_id-IsUnique id ids unique),
    add_mount_id-IsUnique id ids unique,
  ),
)
