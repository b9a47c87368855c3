-- ===== src/Scheduler/Run/Turns.antt =====
-- core/src/addon/scheduler.cpp: the turns and passes of `run_until_idle`, by what they find.
use fenestra_voli_edition.Base.{◌≡◌, ◌⊎◌, ap, refl, ◌∙◌, true, false, List, ◌∷◌, inl, inr, arith}
use fenestra_voli_edition.Scheduler.{Task, is_due, min, remove_done}
use fenestra_voli_edition.Scheduler.Run.{System, Run, Turn, went, threw, resume_task, turn, pass}

pub Turn-cases :
    {W A : Type 0} (x : Turn W A)
    → ((a : A) × (r : Run W) × (x ≡ went a r)) ⊎ ((a : A) × (w : W) × (x ≡ threw a w))
Turn-cases (went a r) = inl (a, r, refl)
Turn-cases (threw a w) = inr (a, w, refl)

pub remove_done-done :
    (t : Task) (ts : List Task) → t.done ≡ true → remove_done (t ∷ ts) ≡ remove_done ts
unfolding remove_done
remove_done-done t ts d = ground (arith, d)

pub remove_done-waiting :
    (t : Task) (ts : List Task) → t.done ≡ false → remove_done (t ∷ ts) ≡ t ∷ remove_done ts
unfolding remove_done
remove_done-waiting t ts d = ground (arith, d)

module _ {W : Type 0} (sys : System W) where
  pub turn_done :
      (t : Task) (r : Run W)
      → t.done ≡ true
      → turn sys t r
        ≡ went t (record { wait = min r.wait t.wait_state; idle = r.idle; world = r.world })
  unfolding turn
  turn_done t r d = ground (arith, d)

  pub turn_waits :
      (t : Task) (r : Run W)
      → t.done ≡ false
      → is_due t.wait_state (sys.now r.world).0 ≡ false
      → turn sys t r
        ≡ went t
            (record { wait = min r.wait t.wait_state; idle = r.idle; world = (sys.now r.world).1 })
  unfolding turn
  turn_waits t r d due = ground (arith, d, due)

  pub turn_due :
      (t : Task) (r : Run W)
      → t.done ≡ false
      → is_due t.wait_state (sys.now r.world).0 ≡ true
      → turn sys t r ≡ resume_task sys t r (sys.now r.world).1
  unfolding turn
  turn_due t r d due = ground (arith, d, due)

  pub pass_cons :
      (t : Task) (ts ts' : List Task) (r r' : Run W)
      → pass sys (t ∷ ts) r ≡ went ts' r'
      → (t' : Task) × (r1 : Run W) × (ts1 : List Task) × (turn sys t r ≡ went t' r1)
        × (pass sys ts r1 ≡ went ts1 r')
        × (ts' ≡ t' ∷ ts1)
  unfolding pass
  pass_cons t ts ts' r r' e = elim (Turn-cases (turn sys t r)) [
    | inl (t', r1, turned) ↦ elim (Turn-cases (pass sys ts r1)) [
      | inl (ts1, r2, passed) ↦
          let q : Path (Turn W (List Task)) (went (t' ∷ ts1) r2) (went ts' r') =
            rw (pass, turned, passed) at e in
          (t', r1, ts1, turned, passed ∙ ap (went ts1) (cc (q)), cc (q))
      | inr (ts1, w, passed) ↦ absurd (cc (rw (pass, turned, passed) at e))
    ]
    | inr (t', w, turned) ↦ absurd (cc (rw (pass, turned) at e))
  ]
