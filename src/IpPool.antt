-- ===== src/IpPool.antt =====
-- cmd/cmd_claimavailableip.py and cmd/cmd_generate_fpg_vfs_names.py: the addresses and the names that
-- a backend gives to its virtual file servers. Both commands run under the lock of the backend, so
-- that its metadata in etcd is one value, which is missing at first. `saves` says whether etcd takes
-- a value; the mediator's answer is the list of the addresses in use on the array; `pick` is the
-- first element of a Python set, in an order that Python does not say.
pub mod Claim
pub mod Unclaim
pub mod Exhausted
pub mod InUse
pub mod Refinement
use python_hpedockerplugin.Prelude.{
  ℕ, ◌+◌, String, Bool, true, false, ◌||◌, Option, none, some, List, [], ◌∷◌, ◌++◌, str_eq,
  contains, if◌then◌else◌,
}

pub record BackendMetadata : Type 0 where
  pub ips_in_use : List String
  pub ips_locked_for_use : List String
  pub counter : Option ℕ
  -- the default file provisioning groups of each group of disks
  pub default_fpgs : Option (List (String × List String))

pub record Backend : Type 0 where
  pub metadata : Option BackendMetadata
  -- `self._locked_ip` of the command
  pub locked_ip : Option String

pub data Failure : Type 0 where
  vfs_creation_failed save_failed metadata_not_found ip_not_locked : Failure

pub data Outcome (A : Type 0) : Type 0 where
  done : A → Outcome A
  failed : Failure → Outcome A

abbrev pub Pool : Type 0
Pool = List (String × List String)

-- `ips - total_ips_in_use`
unfoldable pub available : List String → List String → List String
available [] in_use = []
available (ip ∷ ips) in_use =
    let rest = available ips in_use in if contains ip in_use then rest else ip ∷ rest

-- `list.remove`: the first one.
unfoldable pub remove_first : String → List String → List String
remove_first x [] = []
remove_first x (y ∷ ys) = let rest = remove_first x ys in if str_eq y x then ys else y ∷ rest

-- The lists of a command's `if ip in ips: ips.remove(ip)`; a command without an address removes none.
unfoldable pub remove_if_present : Option String → List String → List String
unfolding remove_first
remove_if_present none ips = ips
remove_if_present (some ip) ips = if contains ip ips then remove_first ip ips else ips

-- One step after another; an exception ends the command.
unfoldable pub then_with :
    {A B : Type 0} → Outcome A × Backend → (A → Backend → Outcome B × Backend) → Outcome B × Backend
then_with (done a, backend) next = next a backend
then_with (failed f, backend) next = (failed f, backend)

-- `except`: another exception in place of any.
unfoldable pub fail_as : {A : Type 0} → Failure → Outcome A × Backend → Outcome A × Backend
fail_as f (done a, backend) = (done a, backend)
fail_as f (failed g, backend) = (failed f, backend)

abbrev pub new_metadata : BackendMetadata
new_metadata = record {
  ips_in_use = [];
  ips_locked_for_use = [];
  counter = none;
  default_fpgs = none;
}

abbrev pub with_locked : BackendMetadata → String → BackendMetadata
with_locked metadata ip = record metadata {
  ips_locked_for_use = metadata.ips_locked_for_use ++ ip ∷ [];
}

abbrev pub without_ip : BackendMetadata → Option String → BackendMetadata
without_ip metadata ip = record metadata {
  ips_in_use = remove_if_present ip metadata.ips_in_use;
  ips_locked_for_use = remove_if_present ip metadata.ips_locked_for_use;
}

abbrev pub moved : BackendMetadata → String → BackendMetadata
moved metadata ip = record metadata {
  ips_in_use = metadata.ips_in_use ++ ip ∷ [];
  ips_locked_for_use = remove_first ip metadata.ips_locked_for_use;
}

abbrev pub counter_of : Option BackendMetadata → ℕ
counter_of none = 0
counter_of (some metadata) = (elim metadata.counter [ none ↦ 0 | some n ↦ n ]) + 1

abbrev pub counted : Option BackendMetadata → ℕ → BackendMetadata
counted none n = record new_metadata { counter = some n }
counted (some metadata) n = record metadata { counter = some n }

module _ (saves : BackendMetadata → Bool) where
  unfoldable pub save : BackendMetadata → Backend → Outcome (Unit {0}) × Backend
  save metadata backend =
      if saves metadata
      then (done tt, record backend { metadata = some metadata })
      else (failed save_failed, backend)

  -- The metadata, which is created where it is missing.
  unfoldable pub get_or_create :
      Option BackendMetadata → Backend → Outcome BackendMetadata × Backend
  unfolding save then_with
  get_or_create (some metadata) backend = (done metadata, backend)
  get_or_create none backend = then_with (save new_metadata backend) (λ u b. (done new_metadata, b))

  module _ (pick : String → List String → String) where
    unfoldable pub lock_ip :
        String → BackendMetadata → String → Backend → Outcome (String × String) × Backend
    unfolding save then_with
    lock_ip netmask metadata ip backend =
        then_with (save (with_locked metadata ip) backend)
          (λ u b. (done (ip, netmask), record b { locked_ip = some ip }))

    -- The loop over the pool.
    unfoldable pub claim_from :
        Pool → List String → BackendMetadata → Backend → Outcome (String × String) × Backend
    unfolding lock_ip available
    claim_from [] total metadata backend = (failed vfs_creation_failed, backend)
    claim_from ((netmask, ips) ∷ pool) total metadata backend =
        let later = claim_from pool total metadata backend in
        elim (available ips total) [
          | [] ↦ later
          | ip ∷ rest ↦ lock_ip netmask metadata (pick ip rest) backend
        ]

    -- `execute`
    unfoldable pub claim :
        Pool → (in_use_on_array : List String) → Backend → Outcome (String × String) × Backend
    unfolding claim_from get_or_create then_with
    claim pool in_use_on_array backend =
        then_with (get_or_create backend.metadata backend) (λ metadata b.
          claim_from pool (in_use_on_array ++ metadata.ips_locked_for_use) metadata b)

  -- `unexecute`
  unfoldable pub release_ip : Option BackendMetadata → Backend → Outcome (Unit {0}) × Backend
  unfolding save remove_if_present
  release_ip none backend = (failed metadata_not_found, backend)
  release_ip (some metadata) backend = save (without_ip metadata backend.locked_ip) backend

  unfoldable pub unclaim : Backend → Outcome (Unit {0}) × Backend
  unfolding release_ip
  unclaim backend = release_ip backend.metadata backend

  unfoldable pub move_ip : String → Option BackendMetadata → Backend → Outcome (Unit {0}) × Backend
  unfolding save remove_first
  move_ip ip none backend = (failed metadata_not_found, backend)
  move_ip ip (some metadata) backend =
      if contains ip metadata.ips_locked_for_use
      then save (moved metadata ip) backend
      else (failed ip_not_locked, backend)

  unfoldable pub mark_locked : Option String → Backend → Outcome (Unit {0}) × Backend
  unfolding move_ip fail_as
  mark_locked none backend = (done tt, backend)
  mark_locked (some ip) backend = fail_as vfs_creation_failed (move_ip ip backend.metadata backend)

  unfoldable pub mark_ip_in_use : Backend → Outcome (Unit {0}) × Backend
  unfolding mark_locked
  mark_ip_in_use backend = mark_locked backend.locked_ip backend

  -- `_generate_default_fpg_vfs_names`: the number in the names.
  unfoldable pub next_counter : Backend → Outcome ℕ × Backend
  unfolding save then_with
  next_counter backend =
      let n = counter_of backend.metadata in
      then_with (save (counted backend.metadata n) backend) (λ u b. (done n, b))
