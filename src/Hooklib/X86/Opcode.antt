-- ===== src/Hooklib/X86/Opcode.antt =====
-- core/src/hooklib/x86.cpp: `octal_split`, `decode_mod_sib` and `decode_opcode_1`.
use fenestra_voli_edition.Base.{
  ℕ, ◌+◌, ◌/◌, ◌%◌, ◌*◌, ◌≤◌, ◌<◌, Bool, false, not, ◌&&◌, ◌||◌, List, [], ◌∷◌, arith, leb, ◌==◌,
  if◌then◌else◌,
}

abbrev pub Mem : Type 0
Mem = ℕ → ℕ

-- Does a `case` label of the list fit?
unfoldable pub one_of : ℕ → List ℕ → Bool
one_of a [] = false
one_of a (x ∷ xs) = a == x || one_of a xs

-- The three octal digits of a byte.
pub record Octal : Type 0 where
  pub a : ℕ
  pub b : ℕ
  pub c : ℕ

unfoldable pub octal_split : ℕ → Octal
octal_split byte = record { a = byte / 64 % 4; b = byte / 8 % 8; c = byte % 8 }

-- What follows the mod/rm byte, as two moves of the cursor.
displacement_16 : ℕ → ℕ → ℕ
displacement_16 mod_ r_m =
    if (mod_ == 0 && r_m == 6) || mod_ == 2 then 2 else if mod_ == 1 then 1 else 0

displacement_32 : ℕ → ℕ → ℕ
displacement_32 mod_ r_m =
    if (mod_ == 0 && r_m == 5) || mod_ == 2 then 4 else if mod_ == 1 then 1 else 0

sib_size : ℕ → ℕ → ℕ
sib_size mod_ r_m = if not (mod_ == 3) && r_m == 4 then 1 else 0

-- The register field, and the cursor behind the operand.
unfoldable pub decode_mod_sib : Mem → ℕ → Bool → ℕ × ℕ
unfolding octal_split displacement_16 displacement_32 sib_size
decode_mod_sib m it address_override =
    let o = octal_split (m it) in
    let it' = it + 1 in
    if address_override
    then (o.b, it' + displacement_16 o.a o.c)
    else (o.b, it' + displacement_32 o.a o.c + sib_size o.a o.c)

abbrev pub mod_sib : Mem → ℕ → Bool → ℕ
mod_sib m it ao = (decode_mod_sib m it ao).1

abbrev pub imm_size : Bool → ℕ
imm_size operand_override = if operand_override then 2 else 4

-- `case 0` of the outer switch: the cursor has passed the opcode byte.
unfoldable pub opcode_0 : Mem → ℕ → Bool → Bool → ℕ → ℕ
opcode_0 m it oo ao c =
    if leb c 3
    then mod_sib m it ao
    else if c == 4
    then it + 1
    else if c == 5
    then it + imm_size oo
    else it

unfoldable pub opcode_1 : Mem → ℕ → Bool → Bool → ℕ → ℕ → ℕ
opcode_1 m it oo ao b c =
    if b == 4
    then (if c == 2 || c == 3 then mod_sib m it ao else it)
    else if b == 5
    then (if c == 1
        then mod_sib m it ao + imm_size oo
        else if c == 0
        then it + imm_size oo
        else if c == 3
        then mod_sib m it ao + 1
        else if c == 2
        then it + 1
        else it)
    else if b == 6 || b == 7
    then it + 1
    else it

-- `case 2`, `case 0`: the immediate behind a group 1 operand or a shift count.
group_immediate : Bool → ℕ → ℕ
group_immediate oo c = if c == 0 || c == 2 || c == 3 then 1 else if c == 1 then imm_size oo else 0

unfoldable pub opcode_2 : Mem → ℕ → Bool → Bool → ℕ → ℕ → ℕ
unfolding group_immediate
opcode_2 m it oo ao b c =
    if b == 0
    then mod_sib m it ao + group_immediate oo c
    else if b == 1
    then mod_sib m it ao
    else if b == 3
    then (if c == 2 then it + (if ao then 4 else 6) else it)
    else if b == 4
    then (if leb c 3 then it + 4 else it)
    else if b == 5
    then (if c == 0 then it + 1 else if c == 1 then it + imm_size oo else it)
    else if b == 6
    then it + 1
    else if b == 7
    then it + imm_size oo
    else it

abbrev mod_sib_opcodes : List ℕ
mod_sib_opcodes =
    0o4 ∷ 0o5 ∷ 0o20 ∷ 0o21 ∷ 0o22 ∷ 0o23 ∷ 0o30 ∷ 0o31 ∷ 0o32 ∷ 0o33 ∷ 0o34 ∷ 0o35 ∷ 0o36 ∷ 0o37
    ∷ 0o76 ∷ 0o77 ∷ []

abbrev byte_opcodes : List ℕ
byte_opcodes =
    0o15 ∷ 0o24 ∷ 0o25 ∷ 0o40 ∷ 0o41 ∷ 0o42 ∷ 0o43 ∷ 0o44 ∷ 0o45 ∷ 0o46 ∷ 0o47 ∷ 0o53 ∷ []

-- `case 066` and `case 067`: only the forms 0 and 1 of the group have an immediate.
test_group : Mem → ℕ → Bool → ℕ → ℕ
test_group m it ao size =
    let (reg, it') = decode_mod_sib m it ao in if reg == 0 || reg == 1 then it' + size else it'

-- `case 3`: `n` is `b << 3 | c`.
unfoldable pub opcode_3 : Mem → ℕ → Bool → Bool → ℕ → ℕ
unfolding test_group
opcode_3 m it oo ao n =
    if one_of n (0 ∷ 1 ∷ 6 ∷ [])
    then mod_sib m it ao + 1
    else if one_of n (0o2 ∷ 0o12 ∷ [])
    then it + 2
    else if one_of n mod_sib_opcodes
    then mod_sib m it ao
    else if n == 7
    then mod_sib m it ao + imm_size oo
    else if n == 0o10
    then it + 3
    else if one_of n byte_opcodes
    then it + 1
    else if one_of n (0o50 ∷ 0o51 ∷ 0o52 ∷ [])
    then it + imm_size oo
    else if n == 0o66
    then test_group m it ao 1
    else if n == 0o67
    then test_group m it ao (imm_size oo)
    else it

unfoldable pub decode_opcode_1 : Mem → ℕ → Bool → Bool → ℕ
unfolding octal_split
decode_opcode_1 m it oo ao =
    let o = octal_split (m it) in
    let it' = it + 1 in
    if o.a == 0
    then opcode_0 m it' oo ao o.c
    else if o.a == 1
    then opcode_1 m it' oo ao o.b o.c
    else if o.a == 2
    then opcode_2 m it' oo ao o.b o.c
    else opcode_3 m it' oo ao (o.b * 8 + o.c)

-- The operand takes the mod/rm byte and at most five bytes more.
pub mod_sib_bounds :
    (m : Mem) (it : ℕ) (ao : Bool) → (it < mod_sib m it ao) × (mod_sib m it ao ≤ it + 6)
unfolding decode_mod_sib
mod_sib_bounds m it ao = ground arith

opcode_0_bounds :
    (m : Mem) (it : ℕ) (oo ao : Bool) (c : ℕ)
    → (it ≤ opcode_0 m it oo ao c) × (opcode_0 m it oo ao c ≤ it + 10)
unfolding opcode_0
opcode_0_bounds m it oo ao c = ground (arith, mod_sib_bounds m it ao)

opcode_1_bounds :
    (m : Mem) (it : ℕ) (oo ao : Bool) (b c : ℕ)
    → (it ≤ opcode_1 m it oo ao b c) × (opcode_1 m it oo ao b c ≤ it + 10)
unfolding opcode_1
opcode_1_bounds m it oo ao b c = ground (arith, mod_sib_bounds m it ao)

opcode_2_bounds :
    (m : Mem) (it : ℕ) (oo ao : Bool) (b c : ℕ)
    → (it ≤ opcode_2 m it oo ao b c) × (opcode_2 m it oo ao b c ≤ it + 10)
unfolding opcode_2
opcode_2_bounds m it oo ao b c = ground (arith, mod_sib_bounds m it ao)

opcode_3_bounds :
    (m : Mem) (it : ℕ) (oo ao : Bool) (n : ℕ)
    → (it ≤ opcode_3 m it oo ao n) × (opcode_3 m it oo ao n ≤ it + 10)
unfolding opcode_3
opcode_3_bounds m it oo ao n = ground (arith, mod_sib_bounds m it ao)

-- A one-byte opcode moves the cursor past itself, and by eleven bytes at most.
pub decode_opcode_1_bounds :
    (m : Mem) (it : ℕ) (oo ao : Bool)
    → (it < decode_opcode_1 m it oo ao) × (decode_opcode_1 m it oo ao ≤ it + 11)
unfolding decode_opcode_1
decode_opcode_1_bounds m it oo ao =
    let o = octal_split (m it) in
    ground (
      arith,
      opcode_0_bounds m (it + 1) oo ao o.c,
      opcode_1_bounds m (it + 1) oo ao o.b o.c,
      opcode_2_bounds m (it + 1) oo ao o.b o.c,
      opcode_3_bounds m (it + 1) oo ao (o.b * 8 + o.c),
    )
