-- ===== src/Hooklib/X86/Follow.antt =====
-- core/src/hooklib/x86.cpp: `follow_jumps`, against the targets that the processor jumps to.
use fenestra_voli_edition.Base.{
  ℕ, zero, suc, ◌+◌, ◌-◌, ◌*◌, ◌%◌, ◌≤◌, ◌<◌, ◌≡◌, ◌↔◌, Option, none, some, arith, ◌==◌, ltb,
  if◌then◌else◌,
}
use fenestra_voli_edition.Hooklib.X86.Opcode.{Mem}
use fenestra_voli_edition.Hooklib.X86.Length.{ok, next_instruction, next_instruction_mov}
use fenestra_voli_edition.Hooklib.X86.Jump.{
  address_mod, Holds, word_at, jump, thiscall_thunk, word_at-little_endian,
}

-- One round of the loop: where the `switch` moves `code_ptr`, or none for its `default`.
-- The four bytes are or-ed at different places, which adds them up; a sum past the end wraps.
unfoldable pub jump_target : Mem → ℕ → Option ℕ
jump_target m p =
    if m p % 256 == 0xE9
    then some ((p + 5 + word_at m (p + 1)) % address_mod)
    else if m p % 256 == 0xEB
    then some ((p + 2 + m (p + 1)) % address_mod)
    else none

pub follow_jumps : ℕ → Mem → ℕ → Option ℕ
follow_jumps zero m p = none
follow_jumps (suc fuel) m p = elim (jump_target m p) [
  | none ↦ some p
  | some q ↦ follow_jumps fuel m q
]

-- What the processor does: both displacements are signed.
abbrev sign_extend_8 : ℕ → ℕ
sign_extend_8 d = if ltb d 128 then d else d + address_mod - 256

unfoldable pub processor_target : Mem → ℕ → Option ℕ
processor_target m p =
    if m p == 0xE9
    then some ((p + 5 + word_at m (p + 1)) % address_mod)
    else if m p == 0xEB
    then some ((p + 2 + sign_extend_8 (m (p + 1))) % address_mod)
    else none

abbrev BackwardShort : Mem → ℕ → Type 0
BackwardShort m p = (m p ≡ 0xEB) × (128 ≤ m (p + 1))

-- The code agrees with the processor but for a short jump backward, which it takes forward.
pub jump_target-processor_target :
    (m : Mem) (p : ℕ)
    → ((a : ℕ) → m a < 256)
    → (jump_target m p ≡ processor_target m p) ↔ (¬ BackwardShort m p)
unfolding jump_target processor_target
jump_target-processor_target m p bytes =
    (ground (arith, bytes p, bytes (p + 1)), ground (arith, bytes p, bytes (p + 1)))

-- `n` jumps lead from `p` to `q`, where no jump stands; none of them is short and backward.
abbrev pub Chain : Mem → ℕ → ℕ → ℕ → Type 0
Chain m zero p q = (processor_target m p ≡ none) × (q ≡ p)
Chain m (suc n) p q =
    (r : ℕ) × (processor_target m p ≡ some r) × (¬ BackwardShort m p) × Chain m n r q

not_backward : (m : Mem) (p : ℕ) → processor_target m p ≡ none → ¬ BackwardShort m p
unfolding processor_target
not_backward m p h = ground arith

pub follow_jumps_lem :
    (n fuel : ℕ) (m : Mem) (p q : ℕ)
    → ((a : ℕ) → m a < 256)
    → Chain m n p q
    → n < fuel
    → follow_jumps fuel m p ≡ some q
unfolding follow_jumps
follow_jumps_lem n zero m p q bytes c h = absurd (omega arith)
follow_jumps_lem zero (suc fuel) m p q bytes c h =
    ground (arith, (jump_target-processor_target m p bytes).1 (not_backward m p c.0))
follow_jumps_lem (suc n) (suc fuel) m p q bytes (r, leads, forward, rest) h = ground (
  arith,
  (jump_target-processor_target m p bytes).1 forward,
  follow_jumps_lem n fuel m r q bytes rest,
)

jump_offset :
    (raw target d : ℕ)
    → raw < address_mod
    → target < address_mod
    → d ≡ (target + 2 * address_mod - raw - 5) % address_mod
    → (raw + 5 + d) % address_mod ≡ target
jump_offset raw target d hr ht e = omega arith

-- A written jump is one that the processor and `follow_jumps` take to its target.
pub processor_target-jump :
    (m : Mem) (raw target : ℕ)
    → raw < address_mod
    → target < address_mod
    → Holds m raw (jump raw target)
    → (processor_target m raw ≡ some target) × (jump_target m raw ≡ some target)
unfolding processor_target jump_target jump
processor_target-jump m raw target hr ht s =
    let d : ℕ = (target + 2 * address_mod - raw - 5) % address_mod in
    let word : word_at m (raw + 1) ≡ d = word_at-little_endian m (raw + 1) d (omega arith) s.1 in
    let there = jump_offset raw target (word_at m (raw + 1)) hr ht word in ground arith

-- A thunk is one five-byte instruction that holds `this_ptr`, and a jump to the target behind it.
pub thiscall_thunk_lem :
    (m : Mem) (raw this_ptr target : ℕ)
    → raw + 5 < address_mod
    → this_ptr < address_mod
    → target < address_mod
    → Holds m raw (thiscall_thunk raw this_ptr target)
    → (next_instruction 1 m raw ≡ ok (raw + 5))
      × (word_at m (raw + 1) ≡ this_ptr)
      × (processor_target m (raw + 5) ≡ some target)
unfolding thiscall_thunk
thiscall_thunk_lem m raw this_ptr target hr hp ht (opcode, (b0, (b1, (b2, (b3, rest))))) =
    let e : raw + 1 + 1 + 1 + 1 + 1 ≡ raw + 5 = omega arith in
    (
      next_instruction_mov m raw opcode,
      word_at-little_endian m (raw + 1) this_ptr hp (b0, (b1, (b2, (b3, tt)))),
      (processor_target-jump m (raw + 5) target hr ht (rw e at rest)).0,
    )
