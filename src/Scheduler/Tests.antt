-- ===== src/Scheduler/Tests.antt =====
-- core/src/addon/scheduler.cpp on small values.
use fenestra_voli_edition.Base.{ℕ, ◌≢◌, refl, inr, [], ◌∷◌, ◌+◌, ◌≡◌, false, leb}
use fenestra_voli_edition.Scheduler.{Task, is_due, min, remove_done}
use fenestra_voli_edition.Scheduler.Run.{
  System, run_until_idle, loop, pass, turn, resume_task, returned, out_of_fuel,
}
use fenestra_voli_edition.Scheduler.Run.Idle.{AllIdle, run_until_idle-AllIdle}
use fenestra_voli_edition.Scheduler.Run.Ends.{Settles, run_until_idle_ends}

-- Each coroutine waits for the time 9 when it is resumed, and ends at the second time; the world counts
-- the times, and the clock shows 5.
abbrev system : System ℕ
system = record {
  now = λ w. (record { time = 5; frame = 1 }, w);
  resume = λ c w. record {
    wait_state = record { time = 9; frame = 1 };
    done = leb 2 w;
    raised = false;
    world = w + 1;
  };
  handler = λ tag w. (false, w);
}

abbrev fresh : Task
fresh = record { coroutine = 1; tag = 0; wait_state = record { time = 0; frame = 0 }; done = false }

abbrev asleep : Task
asleep = record fresh { wait_state = record { time = 9; frame = 1 } }

system-Settles : Settles system
unfolding is_due
system-Settles c w = inr (λ v. refl)

run_until_idle-runs :
    run_until_idle system 4 (fresh ∷ fresh ∷ fresh ∷ []) 0
    ≡ returned (record { time = 9; frame = 1 }) (asleep ∷ asleep ∷ []) 3
unfolding run_until_idle loop pass turn resume_task is_due min remove_done
run_until_idle-runs = refl

run_until_idle-AllIdle_example :
    AllIdle system (record { time = 9; frame = 1 }) (asleep ∷ asleep ∷ [])
run_until_idle-AllIdle_example =
    run_until_idle-AllIdle system 4 (fresh ∷ fresh ∷ fresh ∷ []) (asleep ∷ asleep ∷ [])
      (record { time = 9; frame = 1 }) 0 3 run_until_idle-runs

run_until_idle_ends_example : run_until_idle system 4 (fresh ∷ fresh ∷ fresh ∷ []) 0 ≢ out_of_fuel
run_until_idle_ends_example =
    run_until_idle_ends system system-Settles (fresh ∷ fresh ∷ fresh ∷ []) 0
