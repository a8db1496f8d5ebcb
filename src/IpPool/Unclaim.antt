-- ===== src/IpPool/Unclaim.antt =====
-- What is left of a claim that is taken back.
use python_hpedockerplugin.Prelude.{
  String, ◌≡◌, refl, Bool, true, false, some, List, [], ◌∷◌, ◌++◌, contains, arith, eq_refl,
}
use python_hpedockerplugin.IpPool.{
  BackendMetadata, Backend, done, Pool, remove_first, remove_if_present, with_locked, without_ip,
  save, claim, release_ip, unclaim,
}
use python_hpedockerplugin.IpPool.Claim.{contains-append, claim-IsClaimed}

pub remove_first-append :
    (ip : String) (ips : List String)
    → contains ip ips ≡ false
    → remove_first ip (ips ++ ip ∷ []) ≡ ips
unfolding contains remove_first
remove_first-append ip [] new = ground (arith, eq_refl ip)
remove_first-append ip (i ∷ ips) new = ground (arith, remove_first-append ip ips)

pub contains-locked : (ip : String) (ips : List String) → contains ip (ips ++ ip ∷ []) ≡ true
unfolding contains
contains-locked ip [] = ground (arith, eq_refl ip)
contains-locked ip (i ∷ ips) = ground (arith, contains-locked ip ips)

-- The metadata with the address locked, and then taken back.
without-locked :
    (metadata : BackendMetadata) (ip : String)
    → contains ip metadata.ips_locked_for_use ≡ false
    → contains ip metadata.ips_in_use ≡ false
    → without_ip (with_locked metadata ip) (some ip) ≡ metadata
unfolding remove_if_present
without-locked metadata ip unlocked unused =
    rw
      (
        unused,
        contains-locked ip metadata.ips_locked_for_use,
        remove_first-append ip metadata.ips_locked_for_use unlocked,
      )
      refl

pub not_in_second :
    (k : String) (xs ys : List String) → contains k (xs ++ ys) ≡ false → contains k ys ≡ false
not_in_second k xs ys h = ground (arith, contains-append k xs ys)

unclaim-saved :
    (saves : BackendMetadata → Bool) (backend : Backend) (metadata locked : BackendMetadata)
    (ip : String)
    → backend.metadata ≡ some locked
    → backend.locked_ip ≡ some ip
    → without_ip locked (some ip) ≡ metadata
    → saves metadata ≡ true
    → (unclaim saves backend).1.metadata ≡ some metadata
unfolding unclaim release_ip save
unclaim-saved saves backend metadata locked ip has_locked has_ip back saved =
    rw (has_locked, has_ip, back, saved) refl

-- Where an address was claimed that the metadata does not list as in use, taking the claim back
-- restores the metadata of before, if etcd takes it.
pub unclaim-claim :
    (saves : BackendMetadata → Bool) (pick : String → List String → String) (pool : Pool)
    (on_array : List String) (backend : Backend) (metadata : BackendMetadata)
    (claimed : String × String)
    → ((ip : String) (rest : List String) → contains (pick ip rest) (ip ∷ rest) ≡ true)
    → backend.metadata ≡ some metadata
    → (claim saves pick pool on_array backend).0 ≡ done claimed
    → contains claimed.0 metadata.ips_in_use ≡ false
    → saves metadata ≡ true
    → (unclaim saves (claim saves pick pool on_array backend).1).1.metadata ≡ some metadata
unclaim-claim saves pick pool on_array backend metadata claimed picks_one present answer unused
      saved =
    let taken =
      claim-IsClaimed saves pick pool on_array backend metadata claimed picks_one present answer in
    unclaim-saved saves (claim saves pick pool on_array backend).1 metadata
      (with_locked metadata claimed.0) claimed.0 taken.locked taken.remembered
      (without-locked metadata claimed.0
        (not_in_second claimed.0 on_array metadata.ips_locked_for_use taken.free) unused)
      saved
