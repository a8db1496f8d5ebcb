-- ===== src/Api/Replication.antt =====
-- hpe_storage_api.py, `_validate_rcg_params`: whether a volume of a replication group can be created
-- on a backend.
pub mod Period
use python_hpedockerplugin.Prelude.{
  String, Bool, true, false, not, ◌&&◌, ◌||◌, Option, none, some, List, [], ◌∷◌, lookup,
  if◌then◌else◌,
}
use python_hpedockerplugin.Python.{ℤ, below, above, int, lower_is, lower_in, truthy}
use python_hpedockerplugin.Api.{
  error, raises, no_replication_device, unknown_replication_mode, not_synchronous,
  period_not_allowed, period_not_numeric, period_out_of_range, attribute_error, key_error, Flow,
  stop, go, ◌>>=◌, ◌>>◌, stop_if, or_stop, ReplicationDevice, BackendConfig,
}

abbrev pub valid_modes : List String
valid_modes = "synchronous" ∷ "asynchronous" ∷ "streaming" ∷ []

abbrev pub sync_period_low : ℤ → Bool
sync_period_low period = below period 300

abbrev pub sync_period_high : ℤ → Bool
sync_period_high period = above period 31622400

-- The period of a mode that takes one. The text of the ValueError asks for an attribute that a
-- dictionary does not have.
unfoldable pub check_period : Option String → Flow (Unit {0})
check_period none = go tt
check_period (some text) = do
  period ← or_stop (int text) (raises attribute_error)
  stop_if (sync_period_low period || sync_period_high period) (error period_out_of_range)

unfoldable pub check_mode : ReplicationDevice → String → Flow (Unit {0})
check_mode device rep_mode = do
  stop_if (not (lower_in rep_mode valid_modes)) (error (unknown_replication_mode rep_mode))
  stop_if (truthy device.quorum_witness_ip && not (lower_is rep_mode "synchronous"))
      (error not_synchronous)
  stop_if (truthy device.sync_period && lower_is rep_mode "synchronous") (error period_not_allowed)
  if truthy device.sync_period then check_period device.sync_period else go tt

unfoldable pub check_device : ReplicationDevice → Flow (Unit {0})
check_device device = do
  rep_mode ← or_stop device.replication_mode (raises (key_error "replication_mode"))
  check_mode device rep_mode

unfoldable pub check_group : Option String → String → Option ReplicationDevice → Flow (Unit {0})
unfolding check_device stop_if
check_group rcg_name backend_name none =
    stop_if (truthy rcg_name) (error (no_replication_device backend_name))
check_group rcg_name backend_name (some device) =
    if truthy rcg_name then check_device device else go tt

unfoldable pub validate_rcg_params :
    List (String × BackendConfig) → Option String → String → Flow (Unit {0})
validate_rcg_params backend_configs rcg_name backend_name = do
  config ← or_stop (lookup backend_name backend_configs) (raises (key_error backend_name))
  check_group rcg_name backend_name config.replication_device
