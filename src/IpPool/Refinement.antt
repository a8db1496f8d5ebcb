-- ===== src/IpPool/Refinement.antt =====
-- The lists of addresses in a backend's metadata, against what they stand for: each address is free,
-- locked for a server that is being made, or in use.
use python_hpedockerplugin.Prelude.{
  String, ◌≡◌, refl, sym, ap, ◌∙◌, subst, true, false, not, ◌&&◌, ◌||◌, some, List, [], ◌∷◌, ◌++◌,
  contains, str_eq, Bool-cases, inl, inr, arith, eq_iff, if◌then◌else◌,
}
use python_hpedockerplugin.IpPool.{
  BackendMetadata, remove_first, remove_if_present, with_locked, without_ip, moved,
}
use python_hpedockerplugin.Unmount.Ids.{IsUnique}

pub data AddressState : Type 0 where
  free locked used : AddressState

-- What the commands do to one address: a claim, its mark as in use, and its undo.
pub data Event : Type 0 where
  claims marks gives_back : String → Event

-- The lists.
abbrev pub apply : Event → BackendMetadata → BackendMetadata
apply (claims ip) metadata = with_locked metadata ip
apply (marks ip) metadata = moved metadata ip
apply (gives_back ip) metadata = without_ip metadata (some ip)

abbrev pub state_of : BackendMetadata → String → AddressState
state_of metadata ip =
    if contains ip metadata.ips_in_use
    then used
    else if contains ip metadata.ips_locked_for_use
    then locked
    else free

-- What each event means for the addresses.
abbrev pub set_to : AddressState → String → (String → AddressState) → String → AddressState
set_to state ip states asked = if str_eq ip asked then state else states asked

abbrev pub specified : Event → (String → AddressState) → String → AddressState
specified (claims ip) = set_to locked ip
specified (marks ip) = set_to used ip
specified (gives_back ip) = set_to free ip

-- A free address is claimed, and a claimed one is marked.
abbrev pub IsAllowed : Event → (String → AddressState) → Type 0
IsAllowed (claims ip) states = states ip ≡ free
IsAllowed (marks ip) states = states ip ≡ locked
IsAllowed (gives_back ip) states = Unit

-- No address stands twice in the lists.
pub record IsProper (metadata : BackendMetadata) : Type 0 where
  pub in_use : IsUnique metadata.ips_in_use
  pub locked_ips : IsUnique metadata.ips_locked_for_use
  pub apart :
      (ip : String)
      → contains ip metadata.ips_in_use ≡ true
      → contains ip metadata.ips_locked_for_use ≡ false

contains-append_one :
    (k x : String) (xs : List String) → contains k (xs ++ x ∷ []) ≡ (contains k xs || str_eq x k)
unfolding contains
contains-append_one k x [] = ground arith
contains-append_one k x (y ∷ ys) = ground (arith, contains-append_one k x ys)

append_one-IsUnique :
    (x : String) (xs : List String) → contains x xs ≡ false → IsUnique xs → IsUnique (xs ++ x ∷ [])
unfolding contains
append_one-IsUnique x [] new unique = (refl, tt)
append_one-IsUnique x (y ∷ ys) new unique = (
  ground (arith, contains-append_one y x ys, eq_iff x y),
  append_one-IsUnique x ys (ground arith) unique.1,
)

contains-remove_first :
    (k x : String) (xs : List String)
    → IsUnique xs
    → contains k (remove_first x xs) ≡ (contains k xs && not (str_eq x k))
unfolding contains remove_first
contains-remove_first k x [] unique = refl
contains-remove_first k x (y ∷ ys) unique =
    ground
      (arith, contains-remove_first k x ys unique.1, eq_iff y x, eq_iff y k, eq_iff x k, unique.0)

remove_first-IsUnique : (x : String) (xs : List String) → IsUnique xs → IsUnique (remove_first x xs)
unfolding remove_first
remove_first-IsUnique x [] unique = tt
remove_first-IsUnique x (y ∷ ys) unique = elim (Bool-cases (str_eq y x)) [
  | inl e ↦ rw e unique.1
  | inr e ↦
      rw e
        (ground (arith, contains-remove_first y x ys unique.1), remove_first-IsUnique x ys unique.1)
]

contains-remove_if_present :
    (k x : String) (xs : List String)
    → IsUnique xs
    → contains k (remove_if_present (some x) xs) ≡ (contains k xs && not (str_eq x k))
unfolding remove_if_present
contains-remove_if_present k x xs unique = elim (Bool-cases (contains x xs)) [
  | inl e ↦ rw e (contains-remove_first k x xs unique)
  | inr e ↦ rw e (ground (arith, eq_iff x k))
]

remove_if_present-IsUnique :
    (x : String) (xs : List String) → IsUnique xs → IsUnique (remove_if_present (some x) xs)
unfolding remove_if_present
remove_if_present-IsUnique x xs unique = elim (Bool-cases (contains x xs)) [
  | inl e ↦ rw e (remove_first-IsUnique x xs unique)
  | inr e ↦ rw e unique
]

apply-IsProper :
    (event : Event) (metadata : BackendMetadata)
    → IsProper metadata
    → IsAllowed event (state_of metadata)
    → IsProper (apply event metadata)
apply-IsProper (claims ip) metadata h allowed = record {
  in_use = h.in_use;
  locked_ips = append_one-IsUnique ip metadata.ips_locked_for_use (ground arith) h.locked_ips;
  apart = λ k inside.
      let out = h.apart k inside in
      ground (arith, contains-append_one k ip metadata.ips_locked_for_use, eq_iff ip k);
}
apply-IsProper (marks ip) metadata h allowed = record {
  in_use = append_one-IsUnique ip metadata.ips_in_use (ground arith) h.in_use;
  locked_ips = remove_first-IsUnique ip metadata.ips_locked_for_use h.locked_ips;
  apart = λ k inside. ground (
    arith,
    contains-append_one k ip metadata.ips_in_use,
    contains-remove_first k ip metadata.ips_locked_for_use h.locked_ips,
    h.apart k,
    eq_iff ip k,
  );
}
apply-IsProper (gives_back ip) metadata h allowed = record {
  in_use = remove_if_present-IsUnique ip metadata.ips_in_use h.in_use;
  locked_ips = remove_if_present-IsUnique ip metadata.ips_locked_for_use h.locked_ips;
  apart = λ k inside. ground (
    arith,
    contains-remove_if_present k ip metadata.ips_in_use h.in_use,
    contains-remove_if_present k ip metadata.ips_locked_for_use h.locked_ips,
    h.apart k,
  );
}

apply-specified :
    (event : Event) (metadata : BackendMetadata)
    → IsProper metadata
    → IsAllowed event (state_of metadata)
    → state_of (apply event metadata) ≡ specified event (state_of metadata)
apply-specified event metadata h allowed = λ i asked. at event asked allowed i
  where
    at :
        (event : Event) (asked : String)
        → IsAllowed event (state_of metadata)
        → state_of (apply event metadata) asked ≡ specified event (state_of metadata) asked
    at (claims ip) asked allowed =
        ground (arith, contains-append_one asked ip metadata.ips_locked_for_use, eq_iff ip asked)
    at (marks ip) asked allowed = ground (
      arith,
      contains-append_one asked ip metadata.ips_in_use,
      contains-remove_first asked ip metadata.ips_locked_for_use h.locked_ips,
      eq_iff ip asked,
    )
    at (gives_back ip) asked allowed = ground (
      arith,
      contains-remove_if_present asked ip metadata.ips_in_use h.in_use,
      contains-remove_if_present asked ip metadata.ips_locked_for_use h.locked_ips,
    )

-- A sequence of events, on the lists and on the states of the addresses.
unfoldable pub apply_all : List Event → BackendMetadata → BackendMetadata
apply_all [] metadata = metadata
apply_all (event ∷ events) metadata = apply_all events (apply event metadata)

unfoldable pub specified_all : List Event → (String → AddressState) → String → AddressState
specified_all [] states = states
specified_all (event ∷ events) states = specified_all events (specified event states)

abbrev pub AreAllowed : List Event → (String → AddressState) → Type 0
AreAllowed [] states = Unit
AreAllowed (event ∷ events) states =
    IsAllowed event states × AreAllowed events (specified event states)

-- Any sequence of claims of free addresses, marks of claimed ones and undone claims: the lists keep
-- every address at most once, in one of them at most, and they say of each address what the sequence
-- means for its state.
pub apply_all-specified_all :
    (events : List Event) (metadata : BackendMetadata)
    → IsProper metadata
    → AreAllowed events (state_of metadata)
    → IsProper (apply_all events metadata)
      × (state_of (apply_all events metadata) ≡ specified_all events (state_of metadata))
unfolding apply_all specified_all
apply_all-specified_all [] metadata h allowed = (h, refl)
apply_all-specified_all (event ∷ events) metadata h allowed =
    let same = apply-specified event metadata h allowed.0 in
    let rest =
      apply_all-specified_all events (apply event metadata)
        (apply-IsProper event metadata h allowed.0)
        (subst (AreAllowed events) (sym same) allowed.1) in
    (rest.0, rest.1 ∙ ap (specified_all events) same)
