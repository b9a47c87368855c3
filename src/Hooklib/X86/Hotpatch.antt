-- ===== src/Hooklib/X86/Hotpatch.antt =====
-- core/src/hooklib/x86.cpp: `is_hotpatchable`.
use fenestra_voli_edition.Base.{
  ℕ, zero, suc, ◌+◌, ◌-◌, ◌≡◌, ◌↔◌, Bool, true, not, ◌&&◌, arith, ◌==◌, if◌then◌else◌,
}
use fenestra_voli_edition.Hooklib.X86.Opcode.{Mem}
use fenestra_voli_edition.Hooklib.X86.Length.{Result, ok, ◌>>=◌, next_instruction}

abbrev pub nop_instruction : ℕ
nop_instruction = 0x90

-- `std::find_if` for a byte that is no NOP, over the `n` bytes from `p` on.
find_other : Mem → ℕ → ℕ → ℕ
find_other m p zero = p
find_other m p (suc n) =
    let rest = find_other m (p + 1) n in if not (m p == nop_instruction) then p else rest

-- The search starts `sizeof(jump)` bytes in front of the function.
unfoldable pub is_hotpatchable : ℕ → Mem → ℕ → Result Bool
unfolding find_other
is_hotpatchable fuel m begin = do
  next ← next_instruction fuel m begin
  ok (next - begin == 2 && find_other m (begin - 5) 5 == begin)

-- Exactly the functions that begin with an instruction of two bytes behind five NOPs: the five
-- bytes take a jump, and the two a short jump back to it.
pub is_hotpatchable_iff :
    (fuel : ℕ) (m : Mem) (p : ℕ)
    → (is_hotpatchable fuel m (p + 5) ≡ ok true) ↔ (
        (next_instruction fuel m (p + 5) ≡ ok (p + 7))
        × (m p ≡ 0x90)
        × (m (p + 1) ≡ 0x90)
        × (m (p + 2) ≡ 0x90)
        × (m (p + 3) ≡ 0x90)
        × (m (p + 4) ≡ 0x90))
unfolding is_hotpatchable
is_hotpatchable_iff fuel m p = (ground arith, ground arith)
