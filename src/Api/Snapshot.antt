-- ===== src/Api/Snapshot.antt =====
-- hpe_storage_api.py, `volumedriver_create_snapshot` and `volumedriver_clone_volume`: what a snapshot,
-- with or without a schedule, and a clone ask of the orchestrator.
pub mod Schedule
use python_hpedockerplugin.Prelude.{
  ℕ, String, Bool, true, false, not, ◌&&◌, ◌||◌, Option, none, some, List, [], ◌∷◌, lookup,
  contains, is_some, length, ltb, ◌==◌, str_eq, if◌then◌else◌,
}
use python_hpedockerplugin.Request.{Opts, keys, codes}
use python_hpedockerplugin.Request.Share.{split_at}
use python_hpedockerplugin.Python.{ℤ, greater, int, text_length}
use python_hpedockerplugin.Api.{
  Answer, error, raises, create_snapshot, clone_volume, hours_with_schedule, no_frequency,
  retention_too_long, no_name_or_prefix, empty_name, empty_prefix, name_too_long, invalid_frequency,
  value_error, key_error, CloneRequest, SnapshotRequest, Flow, stop, go, ◌>>=◌, ◌>>◌, stop_if,
  or_stop,
}

-- `int(contents['Opts'][key])`, where the key is there.
unfoldable pub int_option : String → Opts → Flow (Option ℤ)
int_option key opts = elim (lookup key opts) [
  | none ↦ go none
  | some text ↦ elim (int text) [ none ↦ stop (raises value_error) | some n ↦ go (some n) ]
]

abbrev pub has_hours : Opts → Bool
has_hours opts = is_some (lookup "expirationHours" opts) || is_some (lookup "retentionHours" opts)

-- The retention is longer than the expiration, and both are given.
abbrev pub exceeds : Option ℤ → Option ℤ → Bool
exceeds (some rethrs) (some exphrs) = greater rethrs exphrs
exceeds rethrs exphrs = false

-- `len(schedFrequency.split(' ')) != 5`
abbrev pub check_schedule_frequency : String → Bool
check_schedule_frequency freq_sched = length (split_at b' ' (codes freq_sched)) == 5

-- What a schedule adds to a snapshot.
pub record Scheduled : Type 0 where
  pub frequency : String
  pub exphrs : Option ℤ
  pub rethrs : Option ℤ
  pub name : String
  pub prefix : String

abbrev pub with_schedule :
    (src_vol_name snapshot_name : String) (expiration_hrs retention_hrs : Option ℤ)
    (mount_conflict_delay : ℤ)
    → Option Scheduled
    → SnapshotRequest
with_schedule src_vol_name snapshot_name expiration_hrs retention_hrs delay none = record {
  src_vol_name = src_vol_name;
  sched_name = none;
  snapshot_name = snapshot_name;
  snap_prefix = none;
  expiration_hrs = expiration_hrs;
  exphrs = none;
  retention_hrs = retention_hrs;
  rethrs = none;
  mount_conflict_delay = delay;
  has_schedule = false;
  sched_frequency = none;
}
with_schedule src_vol_name snapshot_name expiration_hrs retention_hrs delay (some s) = record {
  src_vol_name = src_vol_name;
  sched_name = some s.name;
  snapshot_name = snapshot_name;
  snap_prefix = some s.prefix;
  expiration_hrs = expiration_hrs;
  exphrs = s.exphrs;
  retention_hrs = retention_hrs;
  rethrs = s.rethrs;
  mount_conflict_delay = delay;
  has_schedule = true;
  sched_frequency = some s.frequency;
}

module _ (timestamp : String) where
  -- `auto` is the time of day, with `_` between its fields.
  abbrev pub schedule_name : String → String
  schedule_name given = if str_eq given "auto" then timestamp else given

  unfoldable pub name_and_prefix : Opts → Flow (String × String)
  name_and_prefix opts = do
    given ← or_stop (lookup "scheduleName" opts) (error no_name_or_prefix)
    prefix ← or_stop (lookup "snapshotPrefix" opts) (error no_name_or_prefix)
    stop_if (str_eq given "") (error empty_name)
    stop_if (str_eq prefix "") (error empty_prefix)
    stop_if (ltb 31 (text_length (schedule_name given)) || ltb 15 (text_length prefix))
        (error name_too_long)
    go (schedule_name given, prefix)

  unfoldable pub schedule_of : Opts → Flow Scheduled
  schedule_of opts = do
    stop_if (has_hours opts) (error hours_with_schedule)
    frequency ← or_stop (lookup "scheduleFrequency" opts) (error no_frequency)
    exphrs ← int_option "expHrs" opts
    rethrs ← int_option "retHrs" opts
    stop_if (exceeds rethrs exphrs) (error retention_too_long)
    (name, prefix) ← name_and_prefix opts
    stop_if (not (check_schedule_frequency frequency)) (error invalid_frequency)
    go (record {
      frequency = frequency;
      exphrs = exphrs;
      rethrs = rethrs;
      name = name;
      prefix = prefix;
    })

  unfoldable pub schedule_if_named : Opts → Flow (Option Scheduled)
  schedule_if_named opts =
      if is_some (lookup "scheduleName" opts)
      then (schedule_of opts >>= λ scheduled. go (some scheduled))
      else go none

  unfoldable pub volumedriver_create_snapshot :
      (name : String) → Opts → (mount_conflict_delay : ℤ) → Flow Answer
  volumedriver_create_snapshot name opts delay = do
    src_vol_name ← or_stop (lookup "virtualCopyOf" opts) (raises (key_error "virtualCopyOf"))
    expiration_hrs ← int_option "expirationHours" opts
    retention_hrs ← int_option "retentionHours" opts
    scheduled ← schedule_if_named opts
    go (
        create_snapshot
          (with_schedule src_vol_name name expiration_hrs retention_hrs delay scheduled))

unfoldable pub volumedriver_clone_volume : (name : String) → Opts → Flow Answer
volumedriver_clone_volume name opts = do
  size ← int_option "size" opts
  src_vol_name ← or_stop (lookup "cloneOf" opts) (raises (key_error "cloneOf"))
  go (
      clone_volume (record {
        src_vol_name = src_vol_name;
        clone_name = name;
        size = size;
        cpg = lookup "cpg" opts;
        snap_cpg = lookup "snapcpg" opts;
        clone_opts = opts;
      }))
