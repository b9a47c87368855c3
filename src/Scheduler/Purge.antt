-- ===== src/Scheduler/Purge.antt =====
-- core/src/addon/scheduler.cpp: what `purge` leaves.
use fenestra_voli_edition.Base.{ℕ, ◌≡◌, ◌==◌, List, [], ◌∷◌, if◌then◌else◌, arith}
use fenestra_voli_edition.Scheduler.{Task, schedule, purge}

-- A purge takes out a task that was scheduled under its tag, and leaves one under another tag behind
-- what it leaves of the others.
pub purge-schedule :
    (task : Task) (tag owner : ℕ) (tasks : List Task)
    → purge tag (schedule task owner tasks)
      ≡ (if owner == tag then purge tag tasks else schedule task owner (purge tag tasks))
unfolding purge schedule
purge-schedule task tag owner [] = ground arith
purge-schedule task tag owner (t ∷ tasks) = ground (arith, purge-schedule task tag owner tasks)
