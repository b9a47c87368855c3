-- ===== src/Scheduler.antt =====
-- core/src/addon/scheduler.cpp: the tasks of an addon.
-- Time is counted from `time_point::min`. A coroutine is a number, with its promise's tag and wait
-- state and whether it is done.
mod Tests
pub mod Wait
pub mod Purge
pub mod Run
use fenestra_voli_edition.Base.{
  ℕ, zero, suc, ◌+◌, ◌-◌, ◌%◌, ◌^◌, Bool, true, false, not, ◌&&◌, ◌||◌, Option, none, some, List,
  [], ◌∷◌, ◌++◌, ◌==◌, leb, ltb, if◌then◌else◌,
}

abbrev pub size_t_mod : ℕ
size_t_mod = 2 ^ 32

pub record WaitState : Type 0 where
  pub time : ℕ
  pub frame : ℕ

-- The difference of the frames, an unsigned one, is read as signed.
unfoldable pub is_due : WaitState → WaitState → Bool
is_due lhs rhs =
    let difference = (lhs.frame + size_t_mod - rhs.frame) % size_t_mod in
    leb lhs.time rhs.time && (difference == 0 || leb (2 ^ 31) difference)

abbrev pub lesser : ℕ → ℕ → ℕ
lesser a b = if ltb b a then b else a

unfoldable pub min : WaitState → WaitState → WaitState
min a b = record { time = lesser a.time b.time; frame = lesser a.frame b.frame }

-- `time_point::max`, and the highest `size_t`.
abbrev pub suspend : WaitState
suspend = record { time = 2 ^ 64 - 1; frame = size_t_mod - 1 }

pub record Task : Type 0 where
  pub coroutine : ℕ
  pub tag : ℕ
  pub wait_state : WaitState
  pub done : Bool

-- `scheduler::schedule`
unfoldable pub schedule : Task → ℕ → List Task → List Task
schedule task tag tasks = tasks ++ record task { tag = tag } ∷ []

-- `scheduler::purge`
unfoldable pub purge : ℕ → List Task → List Task
purge tag [] = []
purge tag (t ∷ tasks) = let rest = purge tag tasks in if t.tag == tag then rest else t ∷ rest

-- The `erase` behind the loop of `run_until_idle`.
unfoldable pub remove_done : List Task → List Task
remove_done [] = []
remove_done (t ∷ tasks) = let rest = remove_done tasks in if t.done then rest else t ∷ rest
