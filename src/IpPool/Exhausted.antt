-- ===== src/IpPool/Exhausted.antt =====
-- When no address can be claimed.
use python_hpedockerplugin.Prelude.{
  String, ◌≡◌, refl, sym, ap, ◌∙◌, subst, ◌↔◌, Bool, true, Option, none, some, List, [], ◌∷◌, ◌++◌,
  inl, inr, contains, All, Option-cases, arith,
}
use python_hpedockerplugin.IpPool.{
  BackendMetadata, Backend, Failure, failed, Pool, available, then_with, with_locked, save, lock_ip,
  claim_from, claim, get_or_create, vfs_creation_failed, new_metadata,
}
use python_hpedockerplugin.IpPool.Claim.{list_cases, claim-present}

-- Every address of the pool is in use or locked.
abbrev pub AllTaken : Pool → List String → Type 0
AllTaken [] total = Unit
AllTaken ((netmask, ips) ∷ pool) total =
    All (λ ip. contains ip total ≡ true) ips × AllTaken pool total

none_available :
    (ips total : List String) → available ips total ≡ [] → All (λ ip. contains ip total ≡ true) ips
unfolding available
none_available [] total h = tt
none_available (ip ∷ ips) total h = (ground arith, none_available ips total (ground arith))

all_taken :
    (ips total : List String) → All (λ ip. contains ip total ≡ true) ips → available ips total ≡ []
unfolding available
all_taken [] total h = refl
all_taken (ip ∷ ips) total h = ground (arith, h.0, all_taken ips total h.1)

module _ (saves : BackendMetadata → Bool) (pick : String → List String → String)
    (all : (metadata : BackendMetadata) → saves metadata ≡ true) where
  claim_from-AllTaken :
      (pool : Pool) (total : List String) (metadata : BackendMetadata) (backend : Backend)
      (f : Failure)
      → (claim_from saves pick pool total metadata backend).0 ≡ failed f
      → AllTaken pool total
  unfolding claim_from lock_ip save then_with
  claim_from-AllTaken [] total metadata backend f failure = tt
  claim_from-AllTaken ((netmask, ips) ∷ pool) total metadata backend f failure =
      elim (list_cases (available ips total)) [
        | inl e ↦ (
          none_available ips total e,
          claim_from-AllTaken pool total metadata backend f (ground arith),
        )
        | inr (ip, (rest, e)) ↦ ground (arith, all (with_locked metadata (pick ip rest)))
      ]

  AllTaken-claim_from :
      (pool : Pool) (total : List String) (metadata : BackendMetadata) (backend : Backend)
      → AllTaken pool total
      → (claim_from saves pick pool total metadata backend).0 ≡ failed vfs_creation_failed
  unfolding claim_from
  AllTaken-claim_from [] total metadata backend taken = refl
  AllTaken-claim_from ((netmask, ips) ∷ pool) total metadata backend taken =
      rw (all_taken ips total taken.0, claim_from)
        (AllTaken-claim_from pool total metadata backend taken.1)

-- The addresses that other claims have locked.
abbrev pub locked_by_claims : Option BackendMetadata → List String
locked_by_claims none = []
locked_by_claims (some metadata) = metadata.ips_locked_for_use

module _ (saves : BackendMetadata → Bool) (pick : String → List String → String) (pool : Pool)
    (on_array : List String) (backend : Backend)
    (all : (metadata : BackendMetadata) → saves metadata ≡ true) where
  -- The metadata is written first where there is none.
  claim-absent :
      backend.metadata ≡ none
      → claim saves pick pool on_array backend
        ≡ claim_from saves pick pool
            (on_array ++ [])
            new_metadata
            (record backend { metadata = some new_metadata })
  unfolding claim get_or_create then_with save
  claim-absent e = rw e (rw (all new_metadata) refl)

  claim_as :
      (total : List String) (metadata : BackendMetadata) (base : Backend)
      → claim saves pick pool on_array backend ≡ claim_from saves pick pool total metadata base
      → ((claim saves pick pool on_array backend).0 ≡ failed vfs_creation_failed)
        ↔ AllTaken pool total
  claim_as total metadata base e = (
    (λ failure.
        claim_from-AllTaken saves pick all pool total metadata base vfs_creation_failed
          (ap (λ r. r.0) (sym e) ∙ failure)),
    (λ taken. ap (λ r. r.0) e ∙ AllTaken-claim_from saves pick all pool total metadata base taken),
  )

-- On a backend whose metadata etcd takes, with metadata or without, a claim fails for want of an
-- address exactly where every address of the pool is in use on the array or locked by a claim.
pub claim-AllTaken :
    (saves : BackendMetadata → Bool) (pick : String → List String → String) (pool : Pool)
    (on_array : List String) (backend : Backend)
    → ((metadata : BackendMetadata) → saves metadata ≡ true)
    → ((claim saves pick pool on_array backend).0 ≡ failed vfs_creation_failed)
      ↔ AllTaken pool (on_array ++ locked_by_claims backend.metadata)
claim-AllTaken saves pick pool on_array backend all = elim (Option-cases backend.metadata) [
  | inl e ↦ answered none (sym e) (
      claim_as saves pick pool on_array backend all _ _ _
        (claim-absent saves pick pool on_array backend all e))
  | inr (metadata, e) ↦ answered (some metadata) (sym e) (
      claim_as saves pick pool on_array backend all _ metadata backend
        (claim-present saves pick pool on_array backend metadata e))
]
  where
    answered :
        (m : Option BackendMetadata)
        → m ≡ backend.metadata
        → (((claim saves pick pool on_array backend).0 ≡ failed vfs_creation_failed)
            ↔ AllTaken pool (on_array ++ locked_by_claims m))
        → (((claim saves pick pool on_array backend).0 ≡ failed vfs_creation_failed)
            ↔ AllTaken pool (on_array ++ locked_by_claims backend.metadata))
    answered m same h =
        subst
          (λ x.
            ((claim saves pick pool on_array backend).0 ≡ failed vfs_creation_failed)
            ↔ AllTaken pool (on_array ++ locked_by_claims x))
          same h
