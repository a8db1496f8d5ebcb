-- ===== src/Etcd/Find.antt =====
-- What the search of etcd by a volume's name finds.
use text.Mathlib.Text.{starts_with}
use text.Mathlib.TextPositions.{starts_with_of_prefix}
use text.Mathlib.TextLemmas.{append-nil}
use python_hpedockerplugin.Prelude.{
  String, ◌≡◌, sym, subst, ◌⊎◌, inr, true, false, Option, none, some, [], ◌∷◌, str_eq, All, arith,
  eq_iff, if◌then◌else◌,
}
use python_hpedockerplugin.Volume.{Volume}
use python_hpedockerplugin.Effect.{Store}
use python_hpedockerplugin.Etcd.{find_byname}

-- The volume is one of the store's.
abbrev pub Stored : Volume → Store → Type 0
Stored vol [] = ⊥
Stored vol ((key, v) ∷ rest) = (v ≡ vol) ⊎ Stored vol rest

starts_with_self : (t : String) → starts_with t t ≡ true
starts_with_self t = starts_with_of_prefix t t (String.[], append-nil t)

-- The found volume is in the store and has the name, as its own or as the one displayed.
abbrev pub IsFound : String → Store → Volume → Type 0
IsFound name store vol = Stored vol store × ((vol.display_name ≡ name) ⊎ (vol.name ≡ name))

later :
    (name : String) (entry : String × Volume) (store : Store) (vol : Volume)
    → IsFound name store vol
    → IsFound name (entry ∷ store) vol
later name (key, v) store vol found = (inr found.0, found.1)

find_byname-IsFound :
    (name : String) (store : Store) (vol : Volume)
    → find_byname name store ≡ some vol
    → IsFound name store vol
unfolding find_byname
find_byname-IsFound name [] vol h = cc
find_byname-IsFound name ((key, v) ∷ store) vol h =
    ground
      (arith, eq_iff v.display_name name, eq_iff v.name name, find_byname-IsFound name store vol)

equal-starts_with : (s t : String) → str_eq s t ≡ true → starts_with s t ≡ true
equal-starts_with s t h =
    subst (λ u. starts_with u t ≡ true) (sym ((eq_iff s t).0 h)) (starts_with_self t)

later_absent :
    (name : String) (v : Volume) (found : Option Volume)
    → (if starts_with v.display_name name
        then (if str_eq v.display_name name then some v else found)
        else if str_eq v.name name
        then some v
        else found)
      ≡ none
    → (str_eq v.display_name name ≡ false) × (found ≡ none)
later_absent name v found h = ground (arith, equal-starts_with v.display_name name)

find_byname-absent :
    (name : String) (store : Store)
    → find_byname name store ≡ none
    → All (λ (entry : String × Volume). str_eq entry.1.display_name name ≡ false) store
unfolding find_byname
find_byname-absent name [] h = tt
find_byname-absent name ((key, v) ∷ store) h =
    let split = later_absent name v (find_byname name store) h in
    (split.0, find_byname-absent name store split.1)

-- A volume that the search by name finds is in the store and has that name, as its own or as the one
-- displayed; where it finds none, no volume in the store is displayed by that name.
pub find_byname_lem :
    (name : String) (store : Store)
    → ((vol : Volume) → find_byname name store ≡ some vol → IsFound name store vol)
      × (find_byname name store ≡ none
          → All (λ (entry : String × Volume). str_eq entry.1.display_name name ≡ false) store)
find_byname_lem name store = (find_byname-IsFound name store, find_byname-absent name store)
