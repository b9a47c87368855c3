-- ===== src/Scheduler/Run/Ends.antt =====
-- core/src/addon/scheduler.cpp: `run_until_idle` ends when its coroutines wait.
use mathlib.Core.Path.{subst}
use fenestra_voli_edition.Base.{
  ℕ, zero, suc, ◌+◌, ◌<◌, ◌≡◌, ◌≢◌, ◌⊎◌, refl, sym, ◌∙◌, true, false, Bool-cases, List, [], ◌∷◌,
  inl, inr, arith, length,
}
use fenestra_voli_edition.Scheduler.{WaitState, Task, is_due, suspend}
use fenestra_voli_edition.Scheduler.Run.{
  System, Run, went, out_of_fuel, resume_task, turn, pass, loop, run_until_idle,
}
use fenestra_voli_edition.Scheduler.Run.Turns.{
  Turn-cases, pass_cons, turn_done, turn_waits, turn_due,
}

-- The wait is over at no time that the clock shows.
abbrev pub IsFuture : {W : Type 0} → System W → WaitState → Type 0
IsFuture {W} sys wait = (v : W) → is_due wait (sys.now v).0 ≡ false

-- Every coroutine that is resumed ends, or waits past the times that the clock shows.
abbrev pub Settles : {W : Type 0} → System W → Type 0
Settles {W} sys =
    (c : ℕ) (w : W) → ((sys.resume c w).done ≡ true) ⊎ IsFuture sys (sys.resume c w).wait_state

module _ {W : Type 0} (sys : System W) (settles : Settles sys) where
  abbrev Settled : Task → Type 0
  Settled t = (t.done ≡ true) ⊎ IsFuture sys t.wait_state

  -- So many tasks at most are not settled.
  abbrev AtMost : ℕ → List Task → Type 0
  AtMost n [] = Unit {0}
  AtMost n (t ∷ ts) = (Settled t × AtMost n ts) ⊎ ((m : ℕ) × (n ≡ suc m) × AtMost m ts)

  AtMost-suc : (n : ℕ) (ts : List Task) → AtMost n ts → AtMost (suc n) ts
  AtMost-suc n [] h = tt
  AtMost-suc n (t ∷ ts) (inl (s, h)) = inl (s, AtMost-suc n ts h)
  AtMost-suc n (t ∷ ts) (inr (m, e, h)) =
      inr (n, refl, subst (λ k. AtMost k ts) (sym e) (AtMost-suc m ts h))

  AtMost-length : (ts : List Task) → AtMost (length ts) ts
  AtMost-length [] = tt
  AtMost-length (t ∷ ts) = inr (length ts, refl, AtMost-length ts)

  resume_task_fields :
      (t t' : Task) (r r' : Run W) (w : W)
      → resume_task sys t r w ≡ went t' r'
      → (t'.done ≡ (sys.resume t.coroutine w).done)
        × (t'.wait_state ≡ (sys.resume t.coroutine w).wait_state)
        × (r'.idle ≡ false)
  unfolding resume_task
  resume_task_fields t t' r r' w e = (ground (arith, e), ground (arith, e), ground (arith, e))

  resume_task-Settled :
      (t t' : Task) (r r' : Run W) (w : W) → resume_task sys t r w ≡ went t' r' → Settled t'
  resume_task-Settled t t' r r' w e =
      let (d, q, i) = resume_task_fields t t' r r' w e in
      elim (settles t.coroutine w) [
        | inl h ↦ inl (d ∙ h)
        | inr h ↦ inr (subst (IsFuture sys) (sym q) h)
      ]

  -- A turn leaves its task as it is, or settles it.
  turn_settles :
      (t t' : Task) (r r' : Run W)
      → turn sys t r ≡ went t' r'
      → ((t ≡ t') × (r'.idle ≡ r.idle)) ⊎ (Settled t' × ¬ Settled t)
  turn_settles t t' r r' e = elim (Bool-cases t.done) [
    | inl d ↦ inl (ground (arith, e, turn_done sys t r d), ground (arith, e, turn_done sys t r d))
    | inr d ↦ elim (Bool-cases (is_due t.wait_state (sys.now r.world).0)) [
      | inl due ↦ inr (
        resume_task-Settled t t' r r' (sys.now r.world).1 (sym (turn_due sys t r d due) ∙ e),
        λ s. elim s [ inl n ↦ absurd (cc (d, n)) | inr f ↦ absurd (cc (due, f r.world)) ],
      )
      | inr due ↦
          inl (
            ground (arith, e, turn_waits sys t r d due),
            ground (arith, e, turn_waits sys t r d due),
          )
    ]
  ]

  -- What a pass leaves, which is one task less if one was resumed.
  abbrev Fewer : ℕ → List Task → Run W → Run W → Type 0
  Fewer n ts' r r' =
      AtMost n ts' × (r'.idle ≡ false → r.idle ≡ true → (m : ℕ) × (n ≡ suc m) × AtMost m ts')

  pass-Fewer :
      (n : ℕ) (ts ts' : List Task) (r r' : Run W)
      → AtMost n ts
      → pass sys ts r ≡ went ts' r'
      → Fewer n ts' r r'
  unfolding pass
  pass-Fewer n [] ts' r r' h e =
      let a : [] ≡ ts' = cc (e) in
      let b : r ≡ r' = cc (e) in
      subst (λ (x : List Task). Fewer n x r r') a
        (subst (λ (y : Run W). Fewer n [] r y) b (tt, λ f g. absurd (cc (f, g))))
  pass-Fewer n (t ∷ ts) ts' r r' h e =
      let (t', r1, ts1, turned, passed, q) = pass_cons sys t ts ts' r r' e in
      subst (λ (x : List Task). Fewer n x r r') (sym q)
        (elim h [
          | inl (s, rest) ↦ elim (turn_settles t t' r r1 turned) [
            | inl (same, i) ↦
                let (most, strict) = pass-Fewer n ts ts1 r1 r' rest passed in
                let s' = subst Settled same s in
                (
                  inl (s', most),
                  λ f g. let (m, k, fewer) = strict f (i ∙ g) in (m, k, inl (s', fewer)),
                )
            | inr (s', unsettled) ↦ absurd (unsettled s)
          ]
          | inr (m, k, rest) ↦ elim (turn_settles t t' r r1 turned) [
            | inl (same, i) ↦
                let (most, strict) = pass-Fewer m ts ts1 r1 r' rest passed in
                (
                  inr (m, k, most),
                  λ f g. let (l, j, fewer) = strict f (i ∙ g) in (m, k, inr (l, j, fewer)),
                )
            | inr (s', unsettled) ↦
                let (most, strict) = pass-Fewer m ts ts1 r1 r' rest passed in
                (
                  subst (λ x. AtMost x (t' ∷ ts1)) (sym k)
                      (AtMost-suc m (t' ∷ ts1) (inl (s', most))),
                  λ f g. (m, k, inl (s', most)),
                )
          ]
        ])

  loop_ends :
      (fuel n : ℕ) (ts : List Task) (wait : WaitState) (w : W)
      → AtMost n ts
      → n < fuel
      → loop sys fuel ts wait w ≢ out_of_fuel
  unfolding loop
  loop_ends zero n ts wait w h b e = absurd (omega (arith, b))
  loop_ends (suc fuel) n ts wait w h b e =
      let start : Run W = record { wait = wait; idle = true; world = w } in
      elim (Turn-cases (pass sys ts start)) [
        | inl (ts', r, passed) ↦ elim (Bool-cases r.idle) [
          | inl i ↦ absurd (cc (rw (loop, passed, i) at e))
          | inr i ↦
              let (m, k, fewer) = (pass-Fewer n ts ts' start r h passed).1 i refl in
              loop_ends fuel m ts' r.wait r.world fewer (omega (arith, b, k))
                (rw (loop, passed, i) at e)
        ]
        | inr (ts', v, passed) ↦ absurd (cc (rw (loop, passed) at e))
      ]

  -- run_until_idle returns or throws after one round more than there are tasks, if every coroutine
  -- that is resumed ends or waits past the times that the clock shows.
  pub run_until_idle_ends :
      (tasks : List Task) (w : W) → run_until_idle sys (length tasks + 1) tasks w ≢ out_of_fuel
  unfolding run_until_idle
  run_until_idle_ends [] w e = absurd (cc (e))
  run_until_idle_ends (t ∷ tasks) w e =
      loop_ends (length (t ∷ tasks) + 1) (length (t ∷ tasks)) (t ∷ tasks) suspend w
        (AtMost-length (t ∷ tasks)) (omega arith) e
