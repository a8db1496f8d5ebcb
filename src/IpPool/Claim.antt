-- ===== src/IpPool/Claim.antt =====
-- What a claimed address is, and whom it belonged to before.
use python_hpedockerplugin.Prelude.{
  String, ◌≡◌, refl, sym, subst, Bool, true, false, ◌||◌, some, List, [], ◌∷◌, ◌++◌, ◌⊎◌, inl, inr,
  contains, Bool-cases, arith, eq_iff,
}
use python_hpedockerplugin.IpPool.{
  BackendMetadata, Backend, Outcome, done, failed, Pool, available, then_with, with_locked, save,
  get_or_create, lock_ip, claim_from, claim,
}

available-member :
    (ip : String) (ips in_use : List String)
    → contains ip (available ips in_use) ≡ true
    → (contains ip ips ≡ true) × (contains ip in_use ≡ false)
unfolding available contains
available-member ip [] in_use h = cc
available-member ip (i ∷ ips) in_use h = ground (arith, eq_iff i ip, available-member ip ips in_use)

pub contains-append :
    (k : String) (xs ys : List String) → contains k (xs ++ ys) ≡ (contains k xs || contains k ys)
unfolding contains
contains-append k [] ys = refl
contains-append k (x ∷ xs) ys = ground (arith, contains-append k xs ys)

pub list_cases :
    (xs : List String) → (xs ≡ []) ⊎ ((x : String) × ((rest : List String) × (xs ≡ x ∷ rest)))
list_cases [] = inl refl
list_cases (x ∷ rest) = inr (x, (rest, refl))

-- The address is one of those that the pool has for the netmask.
abbrev pub InPool : String → String → Pool → Type 0
InPool ip netmask [] = ⊥
InPool ip netmask ((n, ips) ∷ pool) =
    ((n ≡ netmask) × (contains ip ips ≡ true)) ⊎ InPool ip netmask pool

-- A claim took an address that nobody has, and locked it.
pub record IsClaimed (pool : Pool) (total : List String) (metadata : BackendMetadata)
    (claimed : String × String) (after : Backend) : Type 0 where
  pub in_pool : InPool claimed.0 claimed.1 pool
  pub free : contains claimed.0 total ≡ false
  pub locked : after.metadata ≡ some (with_locked metadata claimed.0)
  pub remembered : after.locked_ip ≡ some claimed.0

-- What is known of an outcome where the command returns.
abbrev OnDone : {A : Type 0} → (A → Backend → Type 0) → Outcome A × Backend → Type 0
OnDone P (done a, b) = P a b
OnDone P (failed f, b) = Unit

module _ (saves : BackendMetadata → Bool) (pick : String → List String → String)
    (picks_one : (ip : String) (rest : List String)
      → contains (pick ip rest) (ip ∷ rest) ≡ true) where
  lock_ip-IsClaimed :
      (pool : Pool) (total : List String) (netmask ip : String) (metadata : BackendMetadata)
      (backend : Backend)
      → InPool ip netmask pool
      → contains ip total ≡ false
      → OnDone (IsClaimed pool total metadata) (lock_ip saves pick netmask metadata ip backend)
  unfolding lock_ip then_with save
  lock_ip-IsClaimed pool total netmask ip metadata backend place free =
      elim (Bool-cases (saves (with_locked metadata ip))) [
        | inl e ↦
            rw (e, lock_ip)
              (record { in_pool = place; free = free; locked = refl; remembered = refl })
        | inr e ↦ rw (e, lock_ip) tt
      ]

  further :
      (n : String) (ips : List String) (pool : Pool) (total : List String)
      (metadata : BackendMetadata) (r : Outcome (String × String) × Backend)
      → OnDone (IsClaimed pool total metadata) r
      → OnDone (IsClaimed ((n, ips) ∷ pool) total metadata) r
  further n ips pool total metadata (done a, b) h = record {
    in_pool = inr h.in_pool;
    free = h.free;
    locked = h.locked;
    remembered = h.remembered;
  }
  further n ips pool total metadata (failed f, b) h = tt

  claim_from-IsClaimed :
      (pool : Pool) (total : List String) (metadata : BackendMetadata) (backend : Backend)
      → OnDone (IsClaimed pool total metadata) (claim_from saves pick pool total metadata backend)
  unfolding claim_from
  claim_from-IsClaimed [] total metadata backend = tt
  claim_from-IsClaimed ((netmask, ips) ∷ pool) total metadata backend =
      elim (list_cases (available ips total)) [
        | inl e ↦
            rw (e, claim_from)
              (further netmask ips pool total metadata _
                (claim_from-IsClaimed pool total metadata backend))
        | inr (ip, (rest, e)) ↦
            let member =
              available-member (pick ip rest) ips total
                (subst (λ l. contains (pick ip rest) l ≡ true) (sym e) (picks_one ip rest)) in
            rw (e, claim_from)
              (lock_ip-IsClaimed ((netmask, ips) ∷ pool) total netmask (pick ip rest) metadata
                backend (inl (refl, member.0)) member.1)
      ]

on_done :
    {A : Type 0} (P : A → Backend → Type 0) (r : Outcome A × Backend) (a : A)
    → r.0 ≡ done a
    → OnDone P r
    → P a r.1
on_done P (done x, b) a e h = subst (λ k. P k b) (cc e) h
on_done P (failed f, b) a e h = cc

pub claim-present :
    (saves : BackendMetadata → Bool) (pick : String → List String → String) (pool : Pool)
    (on_array : List String) (backend : Backend) (metadata : BackendMetadata)
    → backend.metadata ≡ some metadata
    → claim saves pick pool on_array backend
      ≡ claim_from saves pick pool (on_array ++ metadata.ips_locked_for_use) metadata backend
unfolding claim get_or_create then_with
claim-present saves pick pool on_array backend metadata present = rw present refl

-- A claim that returns an address, on a backend that has metadata, takes one that the pool has for
-- the netmask and that neither the array uses nor another claim has locked; it is then locked in the
-- metadata, of which nothing else changes. Which element of a set Python takes does not matter.
pub claim-IsClaimed :
    (saves : BackendMetadata → Bool) (pick : String → List String → String) (pool : Pool)
    (on_array : List String) (backend : Backend) (metadata : BackendMetadata)
    (claimed : String × String)
    → ((ip : String) (rest : List String) → contains (pick ip rest) (ip ∷ rest) ≡ true)
    → backend.metadata ≡ some metadata
    → (claim saves pick pool on_array backend).0 ≡ done claimed
    → IsClaimed pool
        (on_array ++ metadata.ips_locked_for_use)
        metadata
        claimed
        (claim saves pick pool on_array backend).1
claim-IsClaimed saves pick pool on_array backend metadata claimed picks_one present answer =
    on_done (IsClaimed pool (on_array ++ metadata.ips_locked_for_use) metadata)
      (claim saves pick pool on_array backend) claimed answer
      (subst (OnDone (IsClaimed pool (on_array ++ metadata.ips_locked_for_use) metadata))
        (sym (claim-present saves pick pool on_array backend metadata present))
        (claim_from-IsClaimed saves pick picks_one pool _ metadata backend))
