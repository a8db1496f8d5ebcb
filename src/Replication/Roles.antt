-- ===== src/Replication/Roles.antt =====
-- Which array `_get_target_driver` chooses, exactly.
use python_hpedockerplugin.Prelude.{
  ℕ, String, ◌≡◌, ◌↔◌, ◌⊎◌, Bool, true, false, Option, none, some, arith,
}
use python_hpedockerplugin.Effect.{primary, secondary, ok, Rcg}
use python_hpedockerplugin.Replication.{primary_role, secondary_role, target_array}

-- A fetched group in a role, reversed or not.
abbrev pub HasRole : ℕ → Bool → Option Rcg → Type 0
HasRole role reversed none = ⊥
HasRole role reversed (some rcg) = (rcg.role ≡ role) × (rcg.role_reversed ≡ reversed)

abbrev pub IsMissing : Option Rcg → Type 0
IsMissing none = Unit
IsMissing (some rcg) = ⊥

-- The primary array is the target exactly where its group is primary in its natural role, and the
-- remote group is either not there or secondary in its natural role. The remote array is the target
-- exactly where its group is primary by reversal, and the local group is not there, still primary in
-- its natural role, or secondary by reversal.
pub target_array_iff :
    (rcg_name : String) (local remote : Option Rcg)
    → ((target_array rcg_name local remote ≡ ok primary) ↔ (
        HasRole primary_role false local
        × (IsMissing remote ⊎ HasRole secondary_role false remote)))
      × ((target_array rcg_name local remote ≡ ok secondary) ↔ (
          HasRole primary_role true remote
          × (IsMissing local
              ⊎ (HasRole primary_role false local ⊎ HasRole secondary_role true local))))
unfolding target_array
target_array_iff rcg_name none none =
    (((λ e. absurd (cc e)), λ h. absurd h.0), ((λ e. absurd (cc e)), λ h. absurd h.0))
target_array_iff rcg_name (some local) none = ground arith
target_array_iff rcg_name none (some remote) = ground arith
target_array_iff rcg_name (some local) (some remote) = ground arith
