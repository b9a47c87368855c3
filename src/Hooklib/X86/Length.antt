-- ===== src/Hooklib/X86/Length.antt =====
-- core/src/hooklib/x86.cpp: `decode`, `decode_opcode_2` to `decode_opcode_4`, `next_instruction`.
use fenestra_voli_edition.Base.{
  ℕ, ◌+◌, ◌≤◌, ◌<◌, ◌≡◌, ◌≢◌, false, ◌||◌, Option, none, some, arith, ◌==◌, if◌then◌else◌,
}
use fenestra_voli_edition.Hooklib.X86.Opcode.{
  Mem, opcode_2, decode_opcode_1, decode_opcode_1_bounds,
}
use fenestra_voli_edition.Hooklib.X86.Prefix.{
  kind, decode_prefix, PrefixRun, seen, decode_prefix_lem,
}

-- `unending` is no exception of the source: its loop over the prefixes runs on.
pub data Error : Type 0 where
  two_byte_opcode three_byte_opcode invalid_opcode unending : Error

pub data Result (A : Type 0) : Type 0 where
  ok : A → Result A
  err : Error → Result A

infixl 5 ◌>>=◌
abbrev pub ◌>>=◌ : {A B : Type 0} → Result A → (A → Result B) → Result B
ok a >>= f = f a
err e >>= f = err e

abbrev or_unending : {A : Type 0} → Option A → Result A
or_unending none = err unending
or_unending (some a) = ok a

-- The bytes behind 0x0F: three functions of the source, each of which throws.
escape_0f : ℕ → Error
escape_0f byte = if byte == 0o70 || byte == 0o72 then three_byte_opcode else two_byte_opcode

unfoldable pub decode : ℕ → Mem → ℕ → Result ℕ
unfolding escape_0f
decode fuel m it = do
  c ← or_unending (decode_prefix fuel m it false false)
  if m c.it == 0o17
      then err (escape_0f (m (c.it + 1)))
      else ok (decode_opcode_1 m c.it c.operand_override c.address_override)

abbrev pub max_instruction_size : ℕ
max_instruction_size = 15

unfoldable pub next_instruction : ℕ → Mem → ℕ → Result ℕ
next_instruction fuel m code_ptr = do
  it ← decode fuel m code_ptr
  if it == code_ptr + (max_instruction_size + 1) then err invalid_opcode else ok it

-- `mov` of a word into a register takes five bytes.
pub next_instruction_mov : (m : Mem) (p : ℕ) → m p ≡ 0xBA → next_instruction 1 m p ≡ ok (p + 5)
unfolding next_instruction decode decode_prefix kind decode_opcode_1 opcode_2
next_instruction_mov m p h = ground arith

-- A run of `n` prefixes is followed by one opcode; `n` rounds and one more decode it. The result
-- lies behind the opcode byte, by ten bytes at most, and is the decoded opcode's end.
pub decode_lem :
    (n fuel : ℕ) (m : Mem) (p : ℕ)
    → PrefixRun m p n
    → n < fuel
    → decode fuel m p ≡ (
        if m (p + n) == 0x0F
        then err (
            if m (p + n + 1) == 0x38 || m (p + n + 1) == 0x3A
            then three_byte_opcode
            else two_byte_opcode)
        else ok (decode_opcode_1 m (p + n) (seen 0x66 m p n) (seen 0x67 m p n)))
unfolding decode
decode_lem n fuel m p r h = rw (decode_prefix_lem n fuel m p false false r h)

pub next_instruction_bounds :
    (n fuel : ℕ) (m : Mem) (p : ℕ) {q : ℕ}
    → PrefixRun m p n
    → n < fuel
    → next_instruction fuel m p ≡ ok q
    → (p + n < q) × (q ≤ p + n + 11) × (q ≢ p + 16)
unfolding next_instruction
next_instruction_bounds n fuel m p r h e = ground (
  arith,
  decode_lem n fuel m p r h,
  decode_opcode_1_bounds m (p + n) (seen 0x66 m p n) (seen 0x67 m p n),
)

-- The size check compares for equality.
pub too_long_accepted :
    (n fuel : ℕ) (m : Mem) (p : ℕ)
    → PrefixRun m p n
    → n < fuel
    → 16 ≤ n
    → m (p + n) ≢ 0x0F
    → (q : ℕ) × (next_instruction fuel m p ≡ ok q) × (p + 16 < q)
unfolding next_instruction
too_long_accepted n fuel m p r h long one_byte = (
  decode_opcode_1 m (p + n) (seen 0x66 m p n) (seen 0x67 m p n),
  ground (
    arith,
    decode_lem n fuel m p r h,
    decode_opcode_1_bounds m (p + n) (seen 0x66 m p n) (seen 0x67 m p n),
  ),
  ground (arith, decode_opcode_1_bounds m (p + n) (seen 0x66 m p n) (seen 0x67 m p n)),
)
