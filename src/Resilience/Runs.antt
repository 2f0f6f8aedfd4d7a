-- ===== src/Resilience/Runs.antt =====
-- The status of a tracker over a history of successes and failures.
use z_courier.Base.{ℕ, ◌+◌, ◌≡◌, refl, Option, some, List, [], ◌∷◌, Text, leb, if◌then◌else◌, arith}
use z_courier.Resilience.{
  DependencyStatus, healthy, degraded, unavailable, DependencyTrackerConfig, DependencyTracker,
  degraded_limit, unavailable_limit, new_dependency_tracker, snapshot_locked, succeeded,
  failed_once, mark_success, mark_failure, snapshot,
}

pub data Event : Type 0 where
  success : ℕ → Event
  failure : ℕ → Text → Event

unfoldable pub run : Option DependencyTracker → List Event → Option DependencyTracker
run t [] = t
run t (success now ∷ es) = run (mark_success now t).0 es
run t (failure now reason ∷ es) = run (mark_failure now reason t).0 es

-- The number of failures since the last success, after `n` at the start.
unfoldable pub failures_after : ℕ → List Event → ℕ
failures_after n [] = n
failures_after n (success _ ∷ es) = failures_after 0 es
failures_after n (failure _ _ ∷ es) = failures_after (n + 1) es

-- The status that a number of failures without a success means.
unfoldable pub status_of : DependencyTrackerConfig → ℕ → DependencyStatus
status_of c n =
    if leb (unavailable_limit c) n
    then unavailable
    else if leb (degraded_limit c) n
    then degraded
    else healthy

-- A tracker with the thresholds of its configuration, whose status is that of its counter.
record IsTracker (c : DependencyTrackerConfig) (n : ℕ) (t : DependencyTracker) : Type 0 where
  degraded_is : t.degraded_threshold ≡ degraded_limit c
  unavailable_is : t.unavailable_threshold ≡ unavailable_limit c
  counter : t.consecutive_failures ≡ n
  status_is : t.status ≡ status_of c n

status_of_none : (c : DependencyTrackerConfig) → status_of c 0 ≡ healthy
unfolding status_of
status_of_none c = ground arith

succeeded-IsTracker :
    (c : DependencyTrackerConfig) (n now : ℕ) (t : DependencyTracker)
    → IsTracker c n t
    → IsTracker c 0 (succeeded now t)
unfolding succeeded
succeeded-IsTracker c n now t v = record {
  degraded_is = v.degraded_is;
  unavailable_is = v.unavailable_is;
  counter = refl;
  status_is = ground (arith, status_of_none c);
}

failed_once-IsTracker :
    (c : DependencyTrackerConfig) (n now : ℕ) (reason : Text) (t : DependencyTracker)
    → IsTracker c n t
    → IsTracker c (n + 1) (failed_once now reason t)
unfolding failed_once status_of
failed_once-IsTracker c n now reason t v = record {
  degraded_is = v.degraded_is;
  unavailable_is = v.unavailable_is;
  counter = ground arith;
  status_is = ground arith;
}

run_from :
    (c : DependencyTrackerConfig) (n : ℕ) (t : DependencyTracker) (es : List Event)
    → IsTracker c n t
    → ((snapshot (run (some t) es)).status ≡ status_of c (failures_after n es))
      × ((snapshot (run (some t) es)).consecutive_failures ≡ failures_after n es)
unfolding run failures_after mark_success mark_failure snapshot snapshot_locked
run_from c n t [] v = (v.status_is, v.counter)
run_from c n t (success now ∷ es) v =
    run_from c 0 (succeeded now t) es (succeeded-IsTracker c n now t v)
run_from c n t (failure now reason ∷ es) v =
    run_from c (n + 1) (failed_once now reason t) es (failed_once-IsTracker c n now reason t v)

-- After any successes and failures on a new tracker, its snapshot has the number of failures since the last success, and
-- the status that this number means by the thresholds of the configuration, defaults included.
pub snapshot-run :
    (c : DependencyTrackerConfig) (es : List Event)
    → ((snapshot (run (some (new_dependency_tracker c)) es)).status
        ≡ status_of c (failures_after 0 es))
      × ((snapshot (run (some (new_dependency_tracker c)) es)).consecutive_failures
          ≡ failures_after 0 es)
unfolding new_dependency_tracker
snapshot-run c es = run_from c 0 (new_dependency_tracker c) es (record {
  degraded_is = refl;
  unavailable_is = refl;
  counter = refl;
  status_is = ground (arith, status_of_none c);
})
