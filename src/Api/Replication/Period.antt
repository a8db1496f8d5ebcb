-- ===== src/Api/Replication/Period.antt =====
-- When `_validate_rcg_params` accepts a replication group.
use python_hpedockerplugin.Prelude.{
  String, ◌≡◌, refl, ◌↔◌, inl, inr, true, false, Option, none, some, List, lookup, Bool-cases,
  Option-cases, arith,
}
use python_hpedockerplugin.Python.{ℤ, below, above, int, lower_is, lower_in, truthy}
use python_hpedockerplugin.Api.{go, ◌>>=◌, stop_if, or_stop, ReplicationDevice, BackendConfig}
use python_hpedockerplugin.Api.Replication.{
  valid_modes, check_period, check_mode, check_device, check_group, validate_rcg_params,
}

-- A period that is given is a number in the bounds, of a mode that is not synchronous.
abbrev pub PeriodFits : String → Option String → Type 0
PeriodFits mode sync_period =
    truthy sync_period ≡ true
    → (lower_is mode "synchronous" ≡ false)
      × ((text : String) × ((period : ℤ) × ((sync_period ≡ some text)
              × ((int text ≡ some period)
                  × ((below period 300 ≡ false) × (above period 31622400 ≡ false))))))

-- A device on which a group can be created.
pub record IsReplicable (device : ReplicationDevice) : Type 0 where
  pub mode : String
  pub has_mode : device.replication_mode ≡ some mode
  pub is_known : lower_in mode valid_modes ≡ true
  pub peer_persistence : truthy device.quorum_witness_ip ≡ true → lower_is mode "synchronous" ≡ true
  pub period_fits : PeriodFits mode device.sync_period

check_period_lem :
    (text : String)
    → check_period (some text) ≡ go tt
    → (period : ℤ) × ((int text ≡ some period)
        × ((below period 300 ≡ false) × (above period 31622400 ≡ false)))
unfolding check_period ◌>>=◌ stop_if or_stop
check_period_lem text accepted = elim (Option-cases (int text)) [
  | inl e ↦ cc
  | inr (period, e) ↦ (period, (e, (ground arith, ground arith)))
]

check_period_go :
    (text : String) (period : ℤ)
    → int text ≡ some period
    → below period 300 ≡ false
    → above period 31622400 ≡ false
    → check_period (some text) ≡ go tt
unfolding check_period ◌>>=◌ stop_if or_stop
check_period_go text period e low high = rw (e, low, high) refl

period-fits :
    (mode : String) (sync_period : Option String)
    → (truthy sync_period ≡ true → lower_is mode "synchronous" ≡ false)
    → (truthy sync_period ≡ true → check_period sync_period ≡ go tt)
    → PeriodFits mode sync_period
period-fits mode none differs accepted given = cc
period-fits mode (some text) differs accepted given =
    let (period, (e, bounds)) = check_period_lem text (accepted given) in
    (differs given, (text, (period, (refl, (e, bounds)))))

check_mode-IsReplicable :
    (device : ReplicationDevice) (mode : String)
    → device.replication_mode ≡ some mode
    → check_mode device mode ≡ go tt
    → IsReplicable device
unfolding check_mode ◌>>=◌ stop_if or_stop
check_mode-IsReplicable device mode has accepted = record {
  mode = mode;
  has_mode = has;
  is_known = ground arith;
  peer_persistence = λ h. ground arith;
  period_fits = period-fits mode device.sync_period (λ h. ground arith) (λ h. ground arith);
}

fits_go :
    (mode : String) (sync_period : Option String)
    → PeriodFits mode sync_period
    → truthy sync_period ≡ true
    → check_period sync_period ≡ go tt
fits_go mode none fits given = cc
fits_go mode (some text) fits given =
    let (differs, (t, (period, (e, (i, (low, high)))))) = fits given in
    check_period_go text period (ground arith) low high

check_mode_go :
    (device : ReplicationDevice) (mode : String)
    → lower_in mode valid_modes ≡ true
    → (truthy device.quorum_witness_ip ≡ true → lower_is mode "synchronous" ≡ true)
    → (truthy device.sync_period ≡ true → lower_is mode "synchronous" ≡ false)
    → (truthy device.sync_period ≡ true → check_period device.sync_period ≡ go tt)
    → check_mode device mode ≡ go tt
unfolding check_mode ◌>>=◌ stop_if or_stop
check_mode_go device mode known peer differs fits = elim (Bool-cases (truthy device.sync_period)) [
  | inl given ↦ rw (known, given, differs given, fits given) (ground arith)
  | inr none_given ↦ ground arith
]

IsReplicable-check_device :
    (device : ReplicationDevice) → IsReplicable device → check_device device ≡ go tt
unfolding check_mode check_device ◌>>=◌ stop_if or_stop
IsReplicable-check_device device h = rw h.has_mode (
    check_mode_go device h.mode h.is_known h.peer_persistence (λ given. (h.period_fits given).0)
      (fits_go h.mode device.sync_period h.period_fits))

check_device-IsReplicable :
    (device : ReplicationDevice) → check_device device ≡ go tt → IsReplicable device
unfolding check_device ◌>>=◌ stop_if or_stop
check_device-IsReplicable device accepted = elim (Option-cases device.replication_mode) [
  | inl e ↦ cc
  | inr (mode, e) ↦ check_mode-IsReplicable device mode e (ground arith)
]

-- The device of a backend is there, and a group can be created on it.
abbrev pub HasReplicable : Option ReplicationDevice → Type 0
HasReplicable none = ⊥
HasReplicable (some device) = IsReplicable device

refused :
    (rcg_name : Option String) (backend_name : String)
    → truthy rcg_name ≡ true
    → check_group rcg_name backend_name none ≡ go tt
    → ⊥
unfolding check_group stop_if
refused rcg_name backend_name given accepted = ground arith

check_group_iff :
    (rcg_name : Option String) (backend_name : String) (device : Option ReplicationDevice)
    → truthy rcg_name ≡ true
    → (check_group rcg_name backend_name device ≡ go tt) ↔ HasReplicable device
unfolding check_group stop_if
check_group_iff rcg_name backend_name none given =
    ((λ e. refused rcg_name backend_name given e), λ h. absurd h)
check_group_iff rcg_name backend_name (some device) given =
    rw given (check_device-IsReplicable device, IsReplicable-check_device device)

-- A request for a volume of a replication group, on a backend that is configured, is accepted exactly
-- where the backend has a replication device whose mode is one of the three, in any case; with a
-- quorum witness the mode is synchronous; and a period that is given is a whole number of seconds from
-- 300 to 31622400 and the mode is not synchronous.
pub validate_rcg_params_iff :
    (configs : List (String × BackendConfig)) (rcg_name : Option String) (backend_name : String)
    (config : BackendConfig)
    → lookup backend_name configs ≡ some config
    → truthy rcg_name ≡ true
    → (validate_rcg_params configs rcg_name backend_name ≡ go tt)
      ↔ HasReplicable config.replication_device
unfolding validate_rcg_params ◌>>=◌ stop_if or_stop
validate_rcg_params_iff configs rcg_name backend_name config found given =
    rw found (check_group_iff rcg_name backend_name config.replication_device given)
