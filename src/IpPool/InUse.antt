-- ===== src/IpPool/InUse.antt =====
-- An address from its claim to its use, and the counter of the generated names.
use python_hpedockerplugin.Prelude.{
  ◌+◌, String, ◌≡◌, refl, Bool, true, false, some, List, [], ◌∷◌, ◌++◌, contains, arith,
}
use python_hpedockerplugin.IpPool.{
  BackendMetadata, Backend, done, Pool, then_with, fail_as, with_locked, save, claim, move_ip,
  mark_locked, mark_ip_in_use, counted, counter_of, next_counter,
}
use python_hpedockerplugin.IpPool.Claim.{claim-IsClaimed}
use python_hpedockerplugin.IpPool.Unclaim.{remove_first-append, contains-locked, not_in_second}

-- The metadata with the address in use.
abbrev pub with_used : BackendMetadata → String → BackendMetadata
with_used metadata ip = record metadata { ips_in_use = metadata.ips_in_use ++ ip ∷ [] }

mark-saved :
    (saves : BackendMetadata → Bool) (backend : Backend) (metadata : BackendMetadata) (ip : String)
    → backend.metadata ≡ some (with_locked metadata ip)
    → backend.locked_ip ≡ some ip
    → contains ip metadata.ips_locked_for_use ≡ false
    → saves (with_used metadata ip) ≡ true
    → ((mark_ip_in_use saves backend).0 ≡ done tt)
      × ((mark_ip_in_use saves backend).1.metadata ≡ some (with_used metadata ip))
unfolding mark_ip_in_use mark_locked move_ip fail_as save
mark-saved saves backend metadata ip has_locked has_ip unlocked saved =
    rw
      (
        has_ip,
        has_locked,
        contains-locked ip metadata.ips_locked_for_use,
        remove_first-append ip metadata.ips_locked_for_use unlocked,
        saved,
      )
      (refl, refl)

-- A claimed address that is then marked as in use moves from the locked addresses to those in use, if
-- etcd takes the metadata: no lock is left behind and no other address is touched.
pub mark_ip_in_use-claim :
    (saves : BackendMetadata → Bool) (pick : String → List String → String) (pool : Pool)
    (on_array : List String) (backend : Backend) (metadata : BackendMetadata)
    (claimed : String × String)
    → ((ip : String) (rest : List String) → contains (pick ip rest) (ip ∷ rest) ≡ true)
    → backend.metadata ≡ some metadata
    → (claim saves pick pool on_array backend).0 ≡ done claimed
    → saves (with_used metadata claimed.0) ≡ true
    → ((mark_ip_in_use saves (claim saves pick pool on_array backend).1).0 ≡ done tt)
      × ((mark_ip_in_use saves (claim saves pick pool on_array backend).1).1.metadata
          ≡ some (with_used metadata claimed.0))
mark_ip_in_use-claim saves pick pool on_array backend metadata claimed picks_one present answer
      saved =
    let taken =
      claim-IsClaimed saves pick pool on_array backend metadata claimed picks_one present answer in
    mark-saved saves (claim saves pick pool on_array backend).1 metadata claimed.0 taken.locked
      taken.remembered (not_in_second claimed.0 on_array metadata.ips_locked_for_use taken.free)
      saved

-- Two names in a row that a backend generates have consecutive numbers, so that they differ, if etcd
-- takes the metadata.
pub next_counter-next_counter :
    (saves : BackendMetadata → Bool) (backend : Backend)
    → ((metadata : BackendMetadata) → saves metadata ≡ true)
    → ((next_counter saves backend).0 ≡ done (counter_of backend.metadata))
      × ((next_counter saves (next_counter saves backend).1).0
          ≡ done (counter_of backend.metadata + 1))
unfolding next_counter then_with save
next_counter-next_counter saves backend all =
    let first = counted backend.metadata (counter_of backend.metadata) in
    ground (arith, all first, all (counted (some first) (counter_of (some first))))
