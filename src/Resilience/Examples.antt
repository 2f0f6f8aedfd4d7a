-- ===== src/Resilience/Examples.antt =====
-- The status of a tracker after a concrete history.
use z_courier.Base.{◌≡◌, some, List, [], ◌∷◌, bytes}
use z_courier.Resilience.{DependencyTrackerConfig, new_dependency_tracker, snapshot}
use z_courier.Resilience.Runs.{
  Event, success, failure, run, failures_after, status_of, snapshot-run,
}

abbrev defaults : DependencyTrackerConfig
defaults = record { name = bytes "redis"; degraded_threshold = 0; unavailable_threshold = 0 }

abbrev history : List Event
history = failure 1 [] ∷ success 2 ∷ failure 3 [] ∷ failure 4 (bytes "timeout") ∷ failure 5 [] ∷ []

snapshot-run_example :
    ((snapshot (run (some (new_dependency_tracker defaults)) history)).status
      ≡ status_of defaults (failures_after 0 history))
    × ((snapshot (run (some (new_dependency_tracker defaults)) history)).consecutive_failures
        ≡ failures_after 0 history)
snapshot-run_example = snapshot-run defaults history
