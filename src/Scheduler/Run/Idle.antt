-- ===== src/Scheduler/Run/Idle.antt =====
-- core/src/addon/scheduler.cpp: what `run_until_idle` leaves and returns.
use mathlib.Core.Path.{subst}
use fenestra_voli_edition.Base.{
  ℕ, zero, suc, ◌≤◌, ◌≡◌, sym, ◌∙◌, true, false, Bool-cases, List, [], ◌∷◌, inl, inr, arith,
}
use fenestra_voli_edition.Scheduler.{WaitState, Task, is_due, min, suspend, remove_done}
use fenestra_voli_edition.Scheduler.Run.Turns.{
  Turn-cases, turn_done, turn_waits, turn_due, pass_cons, remove_done-done, remove_done-waiting,
}
use fenestra_voli_edition.Scheduler.Run.{
  System, Run, Turn, went, returned, resume_task, turn, pass, loop, run_until_idle,
}

-- In both the time and the frame.
pub record NoLater (a b : WaitState) : Type 0 where
  pub time : a.time ≤ b.time
  pub frame : a.frame ≤ b.frame

NoLater-self : (a : WaitState) → NoLater a a
NoLater-self a = record { time = omega arith; frame = omega arith }

NoLater-trans : {a b c : WaitState} → NoLater a b → NoLater b c → NoLater a c
NoLater-trans x y = record {
  time = omega (arith, x.time, y.time);
  frame = omega (arith, x.frame, y.frame);
}

NoLater-min : (a b : WaitState) → NoLater (min a b) a × NoLater (min a b) b
unfolding min
NoLater-min a b = (
  record { time = ground arith; frame = ground arith },
  record { time = ground arith; frame = ground arith },
)

module _ {W : Type 0} (sys : System W) where
  -- The task is waiting: the clock showed a time at which it was not due, and the wait is no longer
  -- than its own.
  pub record IsWaiting (wait : WaitState) (t : Task) : Type 0 where
    pub looked : (w : W) × (is_due t.wait_state (sys.now w).0 ≡ false)
    pub earliest : NoLater wait t.wait_state

  abbrev pub AllWaiting : WaitState → List Task → Type 0
  AllWaiting wait [] = Unit {0}
  AllWaiting wait (t ∷ ts) = (t.done ≡ false → IsWaiting wait t) × AllWaiting wait ts

  abbrev pub AllIdle : WaitState → List Task → Type 0
  AllIdle wait [] = Unit {0}
  AllIdle wait (t ∷ ts) = ((t.done ≡ false) × IsWaiting wait t) × AllIdle wait ts

  -- What a turn ends in that does not resume its task.
  abbrev Stays : Run W → Task → Run W → Type 0
  Stays r t' r' =
      (r.idle ≡ true) × NoLater r'.wait r.wait × (t'.done ≡ false → IsWaiting r'.wait t')

  resume_task_busy :
      (t t' : Task) (r r' : Run W) (w : W) → resume_task sys t r w ≡ went t' r' → r'.idle ≡ false
  unfolding resume_task
  resume_task_busy t t' r r' w e = ground (arith, e)

  stays :
      (t : Task) (r : Run W) (w : W)
      → r.idle ≡ true
      → (t.done ≡ false → (v : W) × (is_due t.wait_state (sys.now v).0 ≡ false))
      → Stays r t (record { wait = min r.wait t.wait_state; idle = r.idle; world = w })
  stays t r w h looked =
      let m = NoLater-min r.wait t.wait_state in
      (h, m.0, λ d. record { looked = looked d; earliest = m.1 })

  went-Stays :
      (t t' : Task) (r r1 r' : Run W)
      → Path (Turn W Task) (went t r1) (went t' r')
      → (r1.idle ≡ true → Stays r t r1)
      → r'.idle ≡ true
      → Stays r t' r'
  went-Stays t t' r r1 r' e s h =
      let a : t ≡ t' = cc (e) in
      let b : r1 ≡ r' = cc (e) in
      subst (λ (x : Task). Stays r x r') a
        (subst (λ (y : Run W). y.idle ≡ true → Stays r t y) b s h)

  turn_idle :
      (t t' : Task) (r r' : Run W) → turn sys t r ≡ went t' r' → r'.idle ≡ true → Stays r t' r'
  turn_idle t t' r r' e h = elim (Bool-cases t.done) [
    | inl d ↦
        went-Stays t t' r
          (record { wait = min r.wait t.wait_state; idle = r.idle; world = r.world }) r'
          (sym (turn_done sys t r d) ∙ e) (λ i. stays t r r.world i (λ n. absurd (cc (d, n)))) h
    | inr d ↦ elim (Bool-cases (is_due t.wait_state (sys.now r.world).0)) [
      | inl due ↦ absurd (
          cc (h, resume_task_busy t t' r r' (sys.now r.world).1 (sym (turn_due sys t r d due) ∙ e)))
      | inr due ↦
          went-Stays t t' r
            (record { wait = min r.wait t.wait_state; idle = r.idle; world = (sys.now r.world).1 })
            r' (sym (turn_waits sys t r d due) ∙ e)
            (λ i. stays t r (sys.now r.world).1 i (λ n. (r.world, due))) h
    ]
  ]

  AllWaiting-NoLater :
      (a b : WaitState) (ts : List Task) → NoLater a b → AllWaiting b ts → AllWaiting a ts
  AllWaiting-NoLater a b [] n h = tt
  AllWaiting-NoLater a b (t ∷ ts) n h = (
    (λ d. record { looked = (h.0 d).looked; earliest = NoLater-trans n (h.0 d).earliest }),
    AllWaiting-NoLater a b ts n h.1,
  )

  IsWaiting-NoLater : (a b : WaitState) (t : Task) → NoLater a b → IsWaiting b t → IsWaiting a t
  IsWaiting-NoLater a b t n h = record { looked = h.looked; earliest = NoLater-trans n h.earliest }

  pass_idle :
      (ts ts' : List Task) (r r' : Run W)
      → pass sys ts r ≡ went ts' r'
      → r'.idle ≡ true
      → (r.idle ≡ true) × NoLater r'.wait r.wait × AllWaiting r'.wait ts'
  unfolding pass
  pass_idle [] ts' r r' e h =
      let a : [] ≡ ts' = cc (e) in
      let b : r ≡ r' = cc (e) in
      subst (λ (x : List Task). (r.idle ≡ true) × NoLater r'.wait r.wait × AllWaiting r'.wait x) a
        (subst
          (λ (y : Run W).
            y.idle ≡ true → (r.idle ≡ true) × NoLater y.wait r.wait × AllWaiting y.wait [])
          b (λ i. (i, NoLater-self r.wait, tt)) h)
  pass_idle (t ∷ ts) ts' r r' e h =
      let (t', r1, ts1, turned, passed, q) = pass_cons sys t ts ts' r r' e in
      let (i, n, waiting) = pass_idle ts ts1 r1 r' passed h in
      let (i', n', waits) = turn_idle t t' r r1 turned i in
      (
        i',
        NoLater-trans n n',
        subst (AllWaiting r'.wait) (sym q)
            ((λ d. IsWaiting-NoLater r'.wait r1.wait t' n (waits d)), waiting),
      )

  remove_done-AllIdle :
      (wait : WaitState) (ts : List Task) → AllWaiting wait ts → AllIdle wait (remove_done ts)
  unfolding remove_done
  remove_done-AllIdle wait [] h = tt
  remove_done-AllIdle wait (t ∷ ts) h = elim (Bool-cases t.done) [
    | inl d ↦ subst (AllIdle wait) (sym (remove_done-done t ts d)) (remove_done-AllIdle wait ts h.1)
    | inr d ↦
        subst (AllIdle wait) (sym (remove_done-waiting t ts d))
          ((d, h.0 d), remove_done-AllIdle wait ts h.1)
  ]

  loop_idle :
      (fuel : ℕ) (ts rest : List Task) (wait wait' : WaitState) (w w' : W)
      → loop sys fuel ts wait w ≡ returned wait' rest w'
      → AllIdle wait' rest
  unfolding loop
  loop_idle zero ts rest wait wait' w w' e = absurd (cc (e))
  loop_idle (suc fuel) ts rest wait wait' w w' e =
      let start : Run W = record { wait = wait; idle = true; world = w } in
      elim (Turn-cases (pass sys ts start)) [
        | inl (ts', r, passed) ↦ elim (Bool-cases r.idle) [
          | inl i ↦
              let q : returned r.wait (remove_done ts') r.world ≡ returned wait' rest w' =
                rw (loop, passed, i) at e in
              let waiting = remove_done-AllIdle r.wait ts' (pass_idle ts ts' start r passed i).2 in
              let a : r.wait ≡ wait' = cc (q) in
              let b : remove_done ts' ≡ rest = cc (q) in
              subst (λ x. AllIdle x rest) a (subst (AllIdle r.wait) b waiting)
          | inr i ↦ loop_idle fuel ts' rest r.wait wait' r.world w' (rw (loop, passed, i) at e)
        ]
        | inr (ts', v, passed) ↦ absurd (cc (rw (loop, passed) at e))
      ]

  -- When run_until_idle returns, none of the tasks that it leaves is done, each was looked at when it
  -- was not due, and the wait that it returns is no later than the wait of any of them.
  pub run_until_idle-AllIdle :
      (fuel : ℕ) (tasks rest : List Task) (wait : WaitState) (w w' : W)
      → run_until_idle sys fuel tasks w ≡ returned wait rest w'
      → AllIdle wait rest
  unfolding run_until_idle
  run_until_idle-AllIdle fuel [] rest wait w w' e =
      let b : [] ≡ rest = cc (e) in subst (AllIdle wait) b tt
  run_until_idle-AllIdle fuel (t ∷ tasks) rest wait w w' e =
      loop_idle fuel (t ∷ tasks) rest suspend wait w w' e
