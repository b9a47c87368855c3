-- ===== src/Scheduler/Run.antt =====
-- core/src/addon/scheduler.cpp: `run_until_idle` and `initialize`.
-- The clock, the coroutines and the error handler are arguments over a type of worlds. A coroutine
-- that schedules a task while it runs is left out: it would move the vector that is walked.
pub mod Turns
pub mod Idle
pub mod Ends
use fenestra_voli_edition.Base.{ℕ, zero, suc, Bool, true, false, List, [], ◌∷◌, if◌then◌else◌}
use fenestra_voli_edition.Scheduler.{WaitState, Task, is_due, min, suspend, remove_done}

-- What a coroutine that was resumed leaves in its promise.
pub record Resumed (W : Type 0) : Type 0 where
  pub wait_state : WaitState
  pub done : Bool
  pub raised : Bool
  pub world : W

-- `handler` answers whether there is an error handler and it returns true.
pub record System (W : Type 0) : Type 0 where
  pub now : W → WaitState × W
  pub resume : ℕ → W → Resumed W
  pub handler : ℕ → W → Bool × W

-- The locals of the loops.
pub record Run (W : Type 0) : Type 0 where
  pub wait : WaitState
  pub idle : Bool
  pub world : W

pub data Turn (W : Type 0) (A : Type 0) : Type 0 where
  went : A → Run W → Turn W A
  threw : A → W → Turn W A

pub data Outcome (W : Type 0) : Type 0 where
  returned : WaitState → List Task → W → Outcome W
  thrown : List Task → W → Outcome W
  out_of_fuel : Outcome W

module _ {W : Type 0} (sys : System W) where
  -- The branch of a task that is due.
  unfoldable pub resume_task : Task → Run W → W → Turn W Task
  resume_task t r w =
      let s = sys.resume t.coroutine w in
      let t' = record t { wait_state = s.wait_state; done = s.done } in
      let (handled, w') = sys.handler t.tag s.world in
      if s.raised
      then if handled
        then went t' (record { wait = r.wait; idle = false; world = w' })
        else threw t' w'
      else went t' (record { wait = min r.wait s.wait_state; idle = false; world = s.world })

  -- The body of the inner loop; the clock is not read for a task that is done.
  unfoldable pub turn : Task → Run W → Turn W Task
  turn t r =
      let (now, w) = sys.now r.world in
      if t.done
      then went t (record r { wait = min r.wait t.wait_state })
      else if is_due t.wait_state now
      then resume_task t r w
      else went t (record r { wait = min r.wait t.wait_state; world = w })

  unfoldable pub pass : List Task → Run W → Turn W (List Task)
  pass [] r = went [] r
  pass (t ∷ ts) r = elim (turn t r) [
    | threw t' w ↦ threw (t' ∷ ts) w
    | went t' r' ↦ elim (pass ts r') [
      | threw ts' w ↦ threw (t' ∷ ts') w
      | went ts' r'' ↦ went (t' ∷ ts') r''
    ]
  ]

  unfoldable pub loop : ℕ → List Task → WaitState → W → Outcome W
  loop zero ts wait w = out_of_fuel
  loop (suc fuel) ts wait w = elim (pass ts (record { wait = wait; idle = true; world = w })) [
    | threw ts' w' ↦ thrown ts' w'
    | went ts' r ↦
        let rest = loop fuel ts' r.wait r.world in
        if r.idle then returned r.wait (remove_done ts') r.world else rest
  ]

  unfoldable pub run_until_idle : ℕ → List Task → W → Outcome W
  run_until_idle fuel [] w = returned suspend [] w
  run_until_idle fuel (t ∷ ts) w = loop fuel (t ∷ ts) suspend w
