-- ===== src/Hooklib/Trampoline/Size.antt =====
-- core/src/hooklib/trampoline.cpp: how much of a function is copied.
use mathlib.Core.Path.{subst}
use fenestra_voli_edition.Base.{
  ◌↔◌, Option, ℕ, zero, suc, ◌+◌, ◌-◌, ◌≤◌, ◌<◌, ◌≡◌, refl, ◌⊎◌, inl, inr, true, false, Bool-cases,
  arith, some, ltb,
}
use fenestra_voli_edition.Hooklib.X86.Opcode.{Mem}
use fenestra_voli_edition.Hooklib.X86.Length.{ok, next_instruction, max_instruction_size}
use fenestra_voli_edition.Hooklib.X86.Follow.{Chain, follow_jumps, follow_jumps_lem}
use fenestra_voli_edition.Hooklib.X86.Hotpatch.{is_hotpatchable, is_hotpatchable_iff}
use fenestra_voli_edition.Hooklib.Trampoline.{
  Place, measure, locate, jump_size, fresh_block, install, construct,
}
use fenestra_voli_edition.Hooklib.Trampoline.Memory.{fresh_block-lt}

-- `n` instructions stand at `p`, none of which is longer than the processor allows.
abbrev pub IsCode : ℕ → ℕ → Mem → ℕ → Type 0
IsCode zero fuel m p = Unit {0}
IsCode (suc n) fuel m p =
    (q : ℕ) × (next_instruction fuel m p ≡ ok q)
    × (p < q)
    × (q ≤ p + max_instruction_size)
    × IsCode n fuel m q

-- `n` whole instructions lead from `p` to `q`.
abbrev pub Run : ℕ → ℕ → Mem → ℕ → ℕ → Type 0
Run zero fuel m p q = p ≡ q
Run (suc n) fuel m p q = (r : ℕ) × (next_instruction fuel m p ≡ ok r) × Run n fuel m r q

measure_lem :
    (rounds fuel : ℕ) (m : Mem) (target mark : ℕ)
    → IsCode rounds fuel m mark
    → target ≤ mark
    → mark < target + jump_size
    → target + jump_size ≤ mark + rounds
    → (size n : ℕ) × (measure rounds fuel m target mark ≡ ok size)
      × (jump_size ≤ size)
      × (size < jump_size + max_instruction_size)
      × Run n fuel m mark (target + size)
unfolding measure
measure_lem zero fuel m target mark c h k l = absurd (omega (arith, k, l))
measure_lem (suc rounds) fuel m target mark (q, e, more, few, c) h k l =
    elim (Bool-cases (ltb (q - target) jump_size)) [
      | inl s ↦
          let (size, n, found, low, up, run) =
            measure_lem rounds fuel m target q c (omega (arith, more, h)) (ground (arith, s))
              (omega (arith, l, more)) in
          (size, suc n, rw (e, s) found, low, up, (q, e, run))
      | inr s ↦ (
        q - target,
        1,
        rw (e, s) refl,
        ground (arith, s),
        omega (arith, few, k),
        (q, e, ground (arith, s)),
      )
    ]

-- The function behind five bytes from `p` on begins with an instruction of two bytes, and the five are NOPs.
abbrev pub IsPatchable : ℕ → Mem → ℕ → Type 0
IsPatchable fuel m p =
    (next_instruction fuel m (p + 5) ≡ ok (p + 7))
    × (m p ≡ 0x90)
    × (m (p + 1) ≡ 0x90)
    × (m (p + 2) ≡ 0x90)
    × (m (p + 3) ≡ 0x90)
    × (m (p + 4) ≡ 0x90)

-- What the constructor copies: the first instruction of a function that has room for a patch, of
-- two bytes, or enough instructions at the end of the jumps of a function that has none.
abbrev pub IsPlace : ℕ → Mem → Place → ℕ → ℕ → Type 0
IsPlace fuel m p target end =
    (IsPatchable fuel m (target - 5) × (p.hotpatched ≡ true) × (p.target ≡ target) × (p.size ≡ 2))
    ⊎ ((¬ IsPatchable fuel m (target - 5))
        × (p.hotpatched ≡ false)
        × (p.target ≡ end)
        × (jump_size ≤ p.size)
        × (p.size < jump_size + max_instruction_size))

is_hotpatchable-IsPatchable :
    (fuel : ℕ) (m : Mem) (target : ℕ)
    → 5 ≤ target
    → (is_hotpatchable fuel m target ≡ ok true) ↔ IsPatchable fuel m (target - 5)
is_hotpatchable-IsPatchable fuel m target h =
    subst (λ q. (is_hotpatchable fuel m q ≡ ok true) ↔ IsPatchable fuel m (target - 5))
      (omega (arith, h)) (is_hotpatchable_iff fuel m (target - 5))

locate_hotpatched :
    (jumps fuel : ℕ) (m : Mem) (target : ℕ)
    → is_hotpatchable fuel m target ≡ ok true
    → (locate jumps fuel m target ≡ ok (record { target = target; size = 2; hotpatched = true }))
      × (next_instruction fuel m target ≡ ok (target + 2))
unfolding locate is_hotpatchable
locate_hotpatched jumps fuel m target h = (rw h refl, ground (arith, h))

locate_followed :
    (jumps fuel : ℕ) (m : Mem) (target end size : ℕ)
    → is_hotpatchable fuel m target ≡ ok false
    → follow_jumps jumps m target ≡ some end
    → measure jump_size fuel m end end ≡ ok size
    → locate jumps fuel m target ≡ ok (record { target = end; size = size; hotpatched = false })
unfolding locate
locate_followed jumps fuel m target end size h f s = rw (h, f, s) refl

true_or_false :
    (fuel : ℕ) (m : Mem) (target : ℕ)
    → is_hotpatchable fuel m target ≡ ok true
    → is_hotpatchable fuel m target ≡ ok false
    → ⊥
true_or_false fuel m target h k = cc (h, k)

hotpatchable_or_not :
    (fuel : ℕ) (m : Mem) (target : ℕ)
    → IsCode 1 fuel m target
    → (is_hotpatchable fuel m target ≡ ok true) ⊎ (is_hotpatchable fuel m target ≡ ok false)
unfolding is_hotpatchable
hotpatchable_or_not fuel m target (q, e, more, few, c) = ground (arith, e)

locate-IsPlace :
    (n jumps fuel : ℕ) (m : Mem) (target end : ℕ)
    → ((a : ℕ) → m a < 256)
    → 5 ≤ target
    → IsCode 1 fuel m target
    → Chain m n target end
    → n < jumps
    → IsCode jump_size fuel m end
    → (p : Place) × (k : ℕ) × (locate jumps fuel m target ≡ ok p)
      × IsPlace fuel m p target end
      × Run k fuel m p.target (p.target + p.size)
locate-IsPlace n jumps fuel m target end bytes low_ code chain enough rest =
    elim (hotpatchable_or_not fuel m target code) [
      | inl h ↦
          let (found, next) = locate_hotpatched jumps fuel m target h in
          (
            record { target = target; size = 2; hotpatched = true },
            1,
            found,
            inl ((is_hotpatchable-IsPatchable fuel m target low_).0 h, refl, refl, refl),
            (target + 2, next, refl),
          )
      | inr h ↦
          let (size, k, found, low, up, run) =
            measure_lem jump_size fuel m end end rest (omega arith) (omega arith) (omega arith) in
          let followed_ = follow_jumps_lem n jumps m target end bytes chain enough in
          (
            record { target = end; size = size; hotpatched = false },
            k,
            locate_followed jumps fuel m target end size h followed_ found,
            inr (
              λ g. absurd (
                  true_or_false fuel m target ((is_hotpatchable-IsPatchable fuel m target low_).1 g)
                    h),
              refl,
              refl,
              low,
              up,
            ),
            run,
          )
    ]

-- The constructor of a block succeeds where the function's jumps end, none of them short and backward, and
-- code stands at it and at their end, from address five on. It copies whole instructions: the first one if
-- it has two bytes and stands behind five NOPs, or else at least five bytes and less than twenty from the
-- end of the jumps on.
pub construct-IsPlace :
    (n jumps fuel : ℕ) (m : Mem) (this target end callback : ℕ) (thunk : Option ℕ)
    → ((a : ℕ) → m a < 256)
    → 5 ≤ target
    → IsCode 1 fuel (fresh_block m this) target
    → Chain (fresh_block m this) n target end
    → n < jumps
    → IsCode jump_size fuel (fresh_block m this) end
    → (p : Place) × (k : ℕ) × (construct jumps fuel m this target callback thunk
        ≡ ok (install (fresh_block m this) this p callback thunk, p))
      × IsPlace fuel (fresh_block m this) p target end
      × Run k fuel (fresh_block m this) p.target (p.target + p.size)
unfolding construct
construct-IsPlace n jumps fuel m this target end callback thunk bytes low_ code chain enough rest =
    let (p, k, found, place, run) =
      locate-IsPlace n jumps fuel (fresh_block m this) target end (fresh_block-lt m this bytes) low_
        code chain enough rest in
    (p, k, rw (found) refl, place, run)
