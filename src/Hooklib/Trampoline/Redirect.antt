-- ===== src/Hooklib/Trampoline/Redirect.antt =====
-- core/src/hooklib/trampoline.cpp: where the processor is led from a hooked function.
use fenestra_voli_edition.Base.{
  ℕ, zero, suc, ◌+◌, ◌-◌, ◌≤◌, ◌<◌, ◌≡◌, refl, ◌∙◌, ◌⊎◌, inl, inr, Option, none, some, List, length,
  arith, if◌then◌else◌,
}
use fenestra_voli_edition.Hooklib.X86.Opcode.{Mem}
use fenestra_voli_edition.Hooklib.X86.Jump.{address_mod, Holds, jump}
use fenestra_voli_edition.Hooklib.X86.Follow.{processor_target, processor_target-jump}
use fenestra_voli_edition.Hooklib.Trampoline.{
  Place, write_bytes, traps, jump_size, hotpatch_jump, redirect,
}
use fenestra_voli_edition.Hooklib.Trampoline.Memory.{
  write_bytes_outside, Holds-write_bytes, Holds-write_bytes_apart, length-traps, length-jump,
}
use fenestra_voli_edition.Hooklib.Trampoline.Block.{IsRoomy, patch_begin, patch_end}

-- Where the processor is after `n` jumps.
abbrev pub after_jumps : ℕ → Mem → ℕ → Option ℕ
after_jumps zero m p = some p
after_jumps (suc n) m p = elim (processor_target m p) [ none ↦ none | some q ↦ after_jumps n m q ]

writes_outside :
    (m : Mem) (a b q : ℕ) (bs cs : List ℕ)
    → ((q < a) × (q < b)) ⊎ ((a + length bs ≤ q) × (b + length cs ≤ q))
    → write_bytes (write_bytes m a bs) b cs q ≡ m q
writes_outside m a b q bs cs (inl h) =
    write_bytes_outside (write_bytes m a bs) b cs q (inl h.1)
    ∙ write_bytes_outside m a bs q (inl h.0)
writes_outside m a b q bs cs (inr h) =
    write_bytes_outside (write_bytes m a bs) b cs q (inr h.1)
    ∙ write_bytes_outside m a bs q (inr h.0)

short_back :
    (m : Mem) (p : ℕ)
    → Holds m p hotpatch_jump
    → jump_size ≤ p
    → p + 2 < address_mod
    → processor_target m p ≡ some (p - jump_size)
unfolding processor_target
short_back m p (first, (second, rest)) h k = ground (arith, first, second, h, k)

one_jump : (m : Mem) (p q : ℕ) → processor_target m p ≡ some q → after_jumps 1 m p ≡ some q
one_jump m p q h = rw (after_jumps, h) refl

two_jumps :
    (m : Mem) (p q r : ℕ)
    → processor_target m p ≡ some q
    → processor_target m q ≡ some r
    → after_jumps 2 m p ≡ some r
two_jumps m p q r h k = rw (after_jumps, h, k) refl

module _ (m : Mem) (p : Place) (to : ℕ) where
  pub redirect_outside :
      (q : ℕ)
      → IsRoomy p
      → jump_size ≤ p.target
      → (q < patch_begin p) ⊎ (patch_end p ≤ q)
      → redirect m p to q ≡ m q
  unfolding redirect
  redirect_outside q (small, inl (e, s)) l k =
      let before = p.target - jump_size in
      rw (e) (
        writes_outside m before p.target q (jump before to) hotpatch_jump (elim k [
          | inl o ↦ inl (ground (arith, o, e), ground (arith, o, e))
          | inr o ↦ inr (omega (arith, o, s, l, length-jump before to), omega (arith, o, s))
        ]))
  redirect_outside q (small, inr (e, s)) l k =
      let rest = traps (p.size - jump_size) in
      rw (e) (
        writes_outside m p.target (p.target + jump_size) q (jump p.target to) rest (elim k [
          | inl o ↦ inl (ground (arith, o, e), ground (arith, o, e))
          | inr o ↦ inr (
            omega (arith, o, s, length-jump p.target to),
            omega (arith, o, s, length-traps (p.size - jump_size)),
          )
        ]))

  -- A hotpatched function is left by its short jump back, and the jump in front of it.
  pub redirect_leads :
      IsRoomy p
      → jump_size ≤ p.target
      → patch_end p < address_mod
      → to < address_mod
      → after_jumps (if p.hotpatched then 2 else 1) (redirect m p to) p.target ≡ some to
  unfolding redirect
  redirect_leads (small, inl (e, s)) l h k =
      let before = p.target - jump_size in
      let first = write_bytes m before (jump before to) in
      let both = write_bytes first p.target hotpatch_jump in
      let stays =
        Holds-write_bytes_apart first p.target hotpatch_jump before (jump before to)
          (inl (omega (arith, l, length-jump before to)))
          (Holds-write_bytes m before (jump before to)) in
      let long = (processor_target-jump both before to (omega (arith, h)) k stays).0 in
      let short =
        short_back both p.target (Holds-write_bytes first p.target hotpatch_jump) l
          (omega (arith, h, s)) in
      rw (e) (two_jumps both p.target before to short long)
  redirect_leads (small, inr (e, s)) l h k =
      let first = write_bytes m p.target (jump p.target to) in
      let rest = traps (p.size - jump_size) in
      let stays =
        Holds-write_bytes_apart first (p.target + jump_size) rest p.target (jump p.target to)
          (inl (omega (arith, length-jump p.target to)))
          (Holds-write_bytes m p.target (jump p.target to)) in
      let both = write_bytes first (p.target + jump_size) rest in
      let long = (processor_target-jump both p.target to (omega (arith, h)) k stays).0 in
      rw (e) (one_jump both p.target to long)
