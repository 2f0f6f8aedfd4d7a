-- ===== src/Resilience.antt =====
-- internal/resilience/tracker.go: the health of a dependency, from the run of its failures. The
-- pointer of a tracker that is nil is `none`; a threshold that is not positive is 0.
pub mod Runs
mod Examples
use z_courier.Base.{
  ℕ, ◌+◌, ◌*◌, Bool, true, false, Option, none, some, [], Text, bytes, nat_eq, ltb, leb, is_empty,
  if◌then◌else◌,
}

pub data DependencyStatus : Type 0 where
  healthy degraded unavailable : DependencyStatus

pub record DependencyTrackerConfig : Type 0 where
  pub name : Text
  pub degraded_threshold : ℕ
  pub unavailable_threshold : ℕ

pub record DependencySnapshot : Type 0 where
  pub name : Text
  pub status : DependencyStatus
  pub consecutive_failures : ℕ
  pub last_reason : Text
  pub last_failure_at : ℕ
  pub last_success_at : ℕ
  pub updated_at : ℕ

pub record DependencyTracker : Type 0 where
  pub name : Text
  pub degraded_threshold : ℕ
  pub unavailable_threshold : ℕ
  pub status : DependencyStatus
  pub consecutive_failures : ℕ
  pub last_reason : Text
  pub last_failure_at : ℕ
  pub last_success_at : ℕ
  pub updated_at : ℕ

-- `degradedThreshold` and `unavailableThreshold` after the defaults of the constructor.
abbrev pub degraded_limit : DependencyTrackerConfig → ℕ
degraded_limit c = if nat_eq c.degraded_threshold 0 then 3 else c.degraded_threshold

abbrev pub unavailable_limit : DependencyTrackerConfig → ℕ
unavailable_limit c =
    let given =
      if nat_eq c.unavailable_threshold 0 then degraded_limit c * 3 else c.unavailable_threshold in
    if ltb given (degraded_limit c) then degraded_limit c else given

unfoldable pub new_dependency_tracker : DependencyTrackerConfig → DependencyTracker
new_dependency_tracker c = record {
  name = c.name;
  degraded_threshold = degraded_limit c;
  unavailable_threshold = unavailable_limit c;
  status = healthy;
  consecutive_failures = 0;
  last_reason = [];
  last_failure_at = 0;
  last_success_at = 0;
  updated_at = 0;
}

unfoldable pub snapshot_locked : DependencyTracker → DependencySnapshot
snapshot_locked t = record {
  name = t.name;
  status = t.status;
  consecutive_failures = t.consecutive_failures;
  last_reason = t.last_reason;
  last_failure_at = t.last_failure_at;
  last_success_at = t.last_success_at;
  updated_at = t.updated_at;
}

-- `DependencySnapshot{Status: DependencyStatusHealthy}`
abbrev pub nil_snapshot : DependencySnapshot
nil_snapshot = record {
  name = [];
  status = healthy;
  consecutive_failures = 0;
  last_reason = [];
  last_failure_at = 0;
  last_success_at = 0;
  updated_at = 0;
}

unfoldable pub succeeded : ℕ → DependencyTracker → DependencyTracker
succeeded now t = record t {
  status = healthy;
  consecutive_failures = 0;
  last_reason = [];
  last_success_at = now;
  updated_at = now;
}

unfoldable pub failed_once : ℕ → Text → DependencyTracker → DependencyTracker
failed_once now reason t =
    let failures = t.consecutive_failures + 1 in
    record t {
      consecutive_failures = failures;
      last_reason = if is_empty reason then bytes "failure" else reason;
      last_failure_at = now;
      updated_at = now;
      status =
          if leb t.unavailable_threshold failures
          then unavailable
          else if leb t.degraded_threshold failures
          then degraded
          else healthy;
    }

unfoldable pub mark_success :
    ℕ → Option DependencyTracker → Option DependencyTracker × DependencySnapshot
mark_success now none = (none, nil_snapshot)
mark_success now (some t) = (some (succeeded now t), snapshot_locked (succeeded now t))

unfoldable pub mark_failure :
    ℕ → Text → Option DependencyTracker → Option DependencyTracker × DependencySnapshot
mark_failure now reason none = (none, nil_snapshot)
mark_failure now reason (some t) =
    (some (failed_once now reason t), snapshot_locked (failed_once now reason t))

unfoldable pub snapshot : Option DependencyTracker → DependencySnapshot
snapshot none = nil_snapshot
snapshot (some t) = snapshot_locked t
