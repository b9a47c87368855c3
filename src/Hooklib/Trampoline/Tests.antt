-- ===== src/Hooklib/Trampoline/Tests.antt =====
-- core/src/hooklib/trampoline.cpp on a small function.
use fenestra_voli_edition.Base.{ℕ, ◌+◌, ◌≡◌, refl, inr, false, some, none, List, [], ◌∷◌, arith}
use fenestra_voli_edition.Hooklib.X86.Opcode.{
  Mem, decode_mod_sib, opcode_1, opcode_2, opcode_3, decode_opcode_1,
}
use fenestra_voli_edition.Hooklib.X86.Prefix.{kind, decode_prefix}
use fenestra_voli_edition.Hooklib.X86.Length.{ok, decode, next_instruction}
use fenestra_voli_edition.Hooklib.X86.Code.{code_of, code_of-lt}
use fenestra_voli_edition.Hooklib.X86.Jump.{Holds}
use fenestra_voli_edition.Hooklib.X86.Follow.{processor_target}
use fenestra_voli_edition.Hooklib.Trampoline.{
  Place, read, write_bytes, traps, fresh_block, construct, install,
}
use fenestra_voli_edition.Hooklib.Trampoline.Size.{IsCode, IsPlace, Run, construct-IsPlace}
use fenestra_voli_edition.Hooklib.Trampoline.Block.{IsRoomy, IsLaidOut}
use fenestra_voli_edition.Hooklib.Trampoline.Redirect.{after_jumps}
use fenestra_voli_edition.Hooklib.Trampoline.Installed.{install-read, install-entry}

-- At address 8: `push ebp`, `mov ebp, esp`, `sub esp, 8`, and NOPs.
abbrev bytes : List ℕ
bytes =
    0 ∷ 0 ∷ 0 ∷ 0 ∷ 0 ∷ 0 ∷ 0 ∷ 0 ∷ 0x55 ∷ 0x8B ∷ 0xEC ∷ 0x83 ∷ 0xEC ∷ 8 ∷ 0x90 ∷ 0x90 ∷ 0x90 ∷ []

abbrev code : Mem
code = code_of bytes

code_IsCode : IsCode 5 1 (fresh_block code 100) 8
unfolding fresh_block write_bytes traps next_instruction decode decode_prefix kind decode_opcode_1
    opcode_1 opcode_2 opcode_3 decode_mod_sib
code_IsCode = (
  9,
  refl,
  omega arith,
  omega arith,
  (
    11,
    refl,
    omega arith,
    omega arith,
    (
      14,
      refl,
      omega arith,
      omega arith,
      (15, refl, omega arith, omega arith, (16, refl, omega arith, omega arith, tt)),
    ),
  ),
)

abbrev place : Place
place = record { target = 8; size = 6; hotpatched = false }

place-IsRoomy : IsRoomy place
place-IsRoomy = (omega arith, inr (refl, omega arith))

place-IsLaidOut : IsLaidOut 100 place
place-IsLaidOut = (omega arith, omega arith, omega arith, inr (omega arith))

construct-IsPlace_example :
    (p : Place) × (k : ℕ) × (construct 1 1 code 100 8 0x5000 none
      ≡ ok (install (fresh_block code 100) 100 p 0x5000 none, p))
    × IsPlace 1 (fresh_block code 100) p 8 8
    × Run k 1 (fresh_block code 100) p.target (p.target + p.size)
unfolding processor_target fresh_block write_bytes traps
construct-IsPlace_example =
    let (q, e, more, few, rest) = code_IsCode in
    construct-IsPlace 0 1 1 code 100 8 8 0x5000 none (code_of-lt bytes (omega arith)) (omega arith)
      (q, e, more, few, tt) (refl, refl) (omega arith) code_IsCode

install-read_example :
    Holds (install code 100 place 0x5000 none) 100 (read code 8 6)
    × (processor_target (install code 100 place 0x5000 none) 106 ≡ some 14)
install-read_example = install-read code 100 place 0x5000 none place-IsRoomy place-IsLaidOut

install-entry_example : after_jumps 1 (install code 100 place 0x5000 (some 0x6000)) 8 ≡ some 120
install-entry_example =
    install-entry code 100 place 0x5000 (some 0x6000) place-IsRoomy place-IsLaidOut (omega arith)
