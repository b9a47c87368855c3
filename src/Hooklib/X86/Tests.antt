-- ===== src/Hooklib/X86/Tests.antt =====
-- core/src/hooklib/x86.cpp on concrete bytes.
use fenestra_voli_edition.Base.{ℕ, ◌≤◌, ◌<◌, ◌≡◌, refl, ◌↔◌, true, List, [], ◌∷◌, some, arith}
use fenestra_voli_edition.Hooklib.X86.Opcode.{decode_mod_sib, opcode_2, opcode_3, decode_opcode_1}
use fenestra_voli_edition.Hooklib.X86.Prefix.{kind, is_prefix, PrefixRun, decode_prefix}
use fenestra_voli_edition.Hooklib.X86.Length.{ok, decode, next_instruction}
use fenestra_voli_edition.Hooklib.X86.Code.{code_of, code_of-lt}
use fenestra_voli_edition.Hooklib.X86.Follow
use fenestra_voli_edition.Hooklib.X86.Follow.{jump_target, processor_target, follow_jumps}
use fenestra_voli_edition.Hooklib.X86.Hotpatch.{is_hotpatchable}

-- `mov word [eax + 0x12345678], 0x1234` behind an operand size prefix
abbrev store : List ℕ
store = 0x66 ∷ 0xC7 ∷ 0x80 ∷ 0x78 ∷ 0x56 ∷ 0x34 ∷ 0x12 ∷ 0x34 ∷ 0x12 ∷ 0x90 ∷ []

next_instruction-store : next_instruction 2 (code_of store) 0 ≡ ok 9
unfolding next_instruction decode decode_prefix kind decode_opcode_1 opcode_3 decode_mod_sib
next_instruction-store = refl

-- Sixteen prefixes and a NOP make seventeen bytes.
abbrev padded : List ℕ
padded =
    0x3E ∷ 0x3E ∷ 0x3E ∷ 0x3E ∷ 0x3E ∷ 0x3E ∷ 0x3E ∷ 0x3E ∷ 0x3E ∷ 0x3E ∷ 0x3E ∷ 0x3E ∷ 0x3E ∷ 0x3E
    ∷ 0x3E ∷ 0x3E ∷ 0x90 ∷ []

padded-PrefixRun : PrefixRun (code_of padded) 0 16
unfolding is_prefix
padded-PrefixRun = ground arith

-- A short jump over three bytes, to a long jump to address 12.
abbrev hops : List ℕ
hops = 0xEB ∷ 3 ∷ 0x90 ∷ 0x90 ∷ 0x90 ∷ 0xE9 ∷ 2 ∷ 0 ∷ 0 ∷ 0 ∷ 0x90 ∷ 0x90 ∷ 0x55 ∷ []

hops_bytes : (a : ℕ) → code_of hops a < 256
hops_bytes = code_of-lt hops (omega arith)

jump_target-processor_target_example :
    (jump_target (code_of hops) 0 ≡ processor_target (code_of hops) 0)
    ↔ (¬ ((code_of hops 0 ≡ 0xEB) × (128 ≤ code_of hops 1)))
jump_target-processor_target_example =
    Follow.jump_target-processor_target (code_of hops) 0 hops_bytes

follow_jumps_example : follow_jumps 3 (code_of hops) 0 ≡ some 12
unfolding processor_target
follow_jumps_example =
    Follow.follow_jumps_lem 2 3 (code_of hops) 0 12 hops_bytes
      (5, refl, (λ b. omega arith), (12, refl, (λ b. omega arith), (refl, refl))) (omega arith)

abbrev written : List ℕ
written = 0xE9 ∷ 0xFB ∷ 0x0F ∷ 0 ∷ 0 ∷ []

-- `mov edi, edi` behind five NOPs
abbrev hotpatchable : List ℕ
hotpatchable = 0x90 ∷ 0x90 ∷ 0x90 ∷ 0x90 ∷ 0x90 ∷ 0x8B ∷ 0xFF ∷ []

is_hotpatchable_runs : is_hotpatchable 1 (code_of hotpatchable) 5 ≡ ok true
unfolding is_hotpatchable next_instruction decode decode_prefix kind decode_opcode_1 opcode_2
    decode_mod_sib
is_hotpatchable_runs = refl
