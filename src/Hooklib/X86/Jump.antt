-- ===== src/Hooklib/X86/Jump.antt =====
-- core/src/hooklib/x86.cpp: the constructors of `jump` and `thiscall_thunk`.
-- Addresses are 32 bits wide; a difference of two is taken modulo 2 ^ 32.
use fenestra_voli_edition.Base.{
  ℕ, ◌+◌, ◌-◌, ◌*◌, ◌/◌, ◌%◌, ◌^◌, ◌<◌, ◌≡◌, List, [], ◌∷◌, ◌++◌, arith,
}
use fenestra_voli_edition.Hooklib.X86.Opcode.{Mem}

abbrev pub address_mod : ℕ
address_mod = 2 ^ 32

-- `value >> 0x00 & 0xFF` to `value >> 0x18 & 0xFF`.
unfoldable pub little_endian : ℕ → List ℕ
little_endian value =
    value % 256 ∷ value / 2 ^ 8 % 256 ∷ value / 2 ^ 16 % 256 ∷ value / 2 ^ 24 % 256 ∷ []

-- The five bytes of a jump that itself stands at `raw`.
unfoldable pub jump : ℕ → ℕ → List ℕ
unfolding little_endian
jump raw target = 0xE9 ∷ little_endian ((target + 2 * address_mod - raw - 5) % address_mod)

-- The ten bytes of a thunk at `raw`: `mov edx, this_ptr`, then the jump, which stands at `raw + 5`.
unfoldable pub thiscall_thunk : ℕ → ℕ → ℕ → List ℕ
unfolding jump
thiscall_thunk raw this_ptr target = 0xBA ∷ little_endian this_ptr ++ jump (raw + 5) target

-- These bytes stand in the code from `p` on.
abbrev pub Holds : Mem → ℕ → List ℕ → Type 0
Holds m p [] = Unit {0}
Holds m p (b ∷ bs) = (m p ≡ b) × Holds m (p + 1) bs

-- The four bytes at `p`, as a number.
abbrev pub word_at : Mem → ℕ → ℕ
word_at m p = m p + m (p + 1) * 2 ^ 8 + m (p + 1 + 1) * 2 ^ 16 + m (p + 1 + 1 + 1) * 2 ^ 24

pub word_at-little_endian :
    (m : Mem) (p v : ℕ) → v < address_mod → Holds m p (little_endian v) → word_at m p ≡ v
unfolding little_endian
word_at-little_endian m p v h s = omega arith
