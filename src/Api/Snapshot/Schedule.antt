-- ===== src/Api/Snapshot/Schedule.antt =====
-- The schedules that hpe_storage_api.py passes on.
use python_hpedockerplugin.Prelude.{
  ◌≤◌, String, ◌≡◌, ◌≢◌, refl, true, false, Option, none, some, lookup, is_some, arith, eq_iff,
}
use python_hpedockerplugin.Request.{Opts}
use python_hpedockerplugin.Python.{ℤ, text_length}
use python_hpedockerplugin.Api.{Answer, create_snapshot, SnapshotRequest, go}
use python_hpedockerplugin.Api.Inversion.{
  OnGo, OnGo-here, OnGo-bind, OnGo-if, OnGo-or_stop, OnGo-stop_if,
}
use python_hpedockerplugin.Api.Snapshot.{
  has_hours, exceeds, check_schedule_frequency, Scheduled, name_and_prefix, schedule_of,
  schedule_if_named, with_schedule, volumedriver_create_snapshot,
}

-- A name of a schedule and a prefix of its snapshots that the array takes.
abbrev pub IsNamed : String × String → Type 0
IsNamed (name, prefix) = (text_length name ≤ 31) × ((text_length prefix ≤ 15) × (prefix ≢ ""))

pub record IsSchedule (opts : Opts) (s : Scheduled) : Type 0 where
  pub no_hours : has_hours opts ≡ false
  pub named : IsNamed (s.name, s.prefix)
  pub five_fields : check_schedule_frequency s.frequency ≡ true
  pub kept_long_enough : exceeds s.rethrs s.exphrs ≡ false

name_and_prefix-IsNamed :
    (timestamp : String) (opts : Opts) → OnGo IsNamed (name_and_prefix timestamp opts)
unfolding name_and_prefix
name_and_prefix-IsNamed timestamp opts = OnGo-or_stop _ _ _ λ given e1.
    OnGo-or_stop _ _ _ λ prefix e2. OnGo-stop_if _ _ _ λ named. OnGo-stop_if _ _ _ λ not_empty.
      OnGo-stop_if _ _ _
        λ short. OnGo-here _ (ground arith, (ground arith, λ q. ground (arith, eq_iff prefix "")))

schedule_of-IsSchedule :
    (timestamp : String) (opts : Opts) → OnGo (IsSchedule opts) (schedule_of timestamp opts)
unfolding schedule_of
schedule_of-IsSchedule timestamp opts = OnGo-stop_if _ _ _ λ no_hours.
    OnGo-or_stop _ _ _ λ frequency e1. OnGo-bind _ _ λ exphrs e2. OnGo-bind _ _ λ rethrs e3.
      OnGo-stop_if _ _ _ λ kept. OnGo-bind _ _ λ named e4. OnGo-stop_if _ _ _ λ five.
        OnGo-here _ (record {
          no_hours = no_hours;
          named = (name_and_prefix-IsNamed timestamp opts).at named e4;
          five_fields = ground arith;
          kept_long_enough = kept;
        })

schedule_if_named-IsSchedule :
    (timestamp : String) (opts : Opts)
    → is_some (lookup "scheduleName" opts) ≡ true
    → OnGo
        (λ o. (s : Scheduled) × ((o ≡ some s) × IsSchedule opts s))
        (schedule_if_named timestamp opts)
unfolding schedule_if_named
schedule_if_named-IsSchedule timestamp opts named =
    OnGo-if (is_some (lookup "scheduleName" opts)) _ (go none)
      (λ given.
        OnGo-bind _ _
          λ s e. OnGo-here _ (s, (refl, (schedule_of-IsSchedule timestamp opts).at s e)))
      (λ missing. cc)

-- What the orchestrator gets for a snapshot with a schedule.
pub record IsScheduled (opts : Opts) (request : SnapshotRequest) : Type 0 where
  pub scheduled : Scheduled
  pub is_schedule : IsSchedule opts scheduled
  pub marked : request.has_schedule ≡ true
  pub name : request.sched_name ≡ some scheduled.name
  pub prefix : request.snap_prefix ≡ some scheduled.prefix
  pub frequency : request.sched_frequency ≡ some scheduled.frequency
  pub hours : (request.exphrs ≡ scheduled.exphrs) × (request.rethrs ≡ scheduled.rethrs)

request-IsScheduled :
    (opts : Opts) (src name : String) (expiration retention : Option ℤ) (delay : ℤ) (s : Scheduled)
    → IsSchedule opts s
    → IsScheduled opts (with_schedule src name expiration retention delay (some s))
request-IsScheduled opts src name expiration retention delay s is_schedule = record {
  scheduled = s;
  is_schedule = is_schedule;
  marked = refl;
  name = refl;
  prefix = refl;
  frequency = refl;
  hours = (refl, refl);
}

abbrev OnSnapshot : (SnapshotRequest → Type 0) → Answer → Type 0
OnSnapshot P (create_snapshot request) = P request
OnSnapshot P answer = Unit

-- A snapshot request with a schedule name that is passed to the orchestrator carries a schedule: the
-- name has at most 31 characters, the prefix is not empty and has at most 15, the frequency has five
-- fields, the retention is not longer than the expiration where both are given, and no expiration or
-- retention is given for the snapshot itself.
pub volumedriver_create_snapshot-IsScheduled :
    (timestamp name : String) (opts : Opts) (delay : ℤ) (request : SnapshotRequest)
    → is_some (lookup "scheduleName" opts) ≡ true
    → volumedriver_create_snapshot timestamp name opts delay ≡ go (create_snapshot request)
    → IsScheduled opts request
unfolding volumedriver_create_snapshot
volumedriver_create_snapshot-IsScheduled timestamp name opts delay request named =
    flow.at (create_snapshot request)
  where
    flow :
        OnGo
          (λ a. OnSnapshot (IsScheduled opts) a)
          (volumedriver_create_snapshot timestamp name opts delay)
    flow = OnGo-or_stop _ _ _ λ src e1. OnGo-bind _ _ λ expiration e2. OnGo-bind _ _ λ retention e3.
        OnGo-bind _ _ λ scheduled e4.
          let (s, (same, is_schedule)) =
            (schedule_if_named-IsSchedule timestamp opts named).at scheduled e4 in
          OnGo-here _
            (rw same (request-IsScheduled opts src name expiration retention delay s is_schedule))
