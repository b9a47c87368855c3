-- ===== src/Hooklib/Trampoline.antt =====
-- core/src/hooklib/trampoline.cpp: the constructor of `trampoline::block`, which hooks a function.
-- Memory is a function, and a block lies in it, at the address `this`: 20 bytes of `m_raw`, 10 of
-- `m_thunk`. Protecting the pages and halting the other threads (`patch_guard`) is left to the system.
pub mod Memory
pub mod Size
pub mod Block
pub mod Redirect
pub mod Installed
mod Tests
use fenestra_voli_edition.Base.{
  ℕ, zero, suc, ◌+◌, ◌-◌, Bool, true, false, Option, none, some, List, [], ◌∷◌, ◌==◌, ltb,
  if◌then◌else◌,
}
use fenestra_voli_edition.Hooklib.X86.Opcode.{Mem}
use fenestra_voli_edition.Hooklib.X86.Length.{
  Result, ok, err, unending, ◌>>=◌, next_instruction, max_instruction_size,
}
use fenestra_voli_edition.Hooklib.X86.Jump.{jump, thiscall_thunk}
use fenestra_voli_edition.Hooklib.X86.Follow.{follow_jumps}
use fenestra_voli_edition.Hooklib.X86.Hotpatch.{is_hotpatchable}

abbrev write_byte : Mem → ℕ → ℕ → Mem
write_byte m a b p = if p == a then b else m p

-- The bytes are stored from `a` on.
pub write_bytes : Mem → ℕ → List ℕ → Mem
write_bytes m a [] = m
write_bytes m a (b ∷ bs) = write_byte (write_bytes m (a + 1) bs) a b

pub read : Mem → ℕ → ℕ → List ℕ
read m a zero = []
read m a (suc n) = m a ∷ read m (a + 1) n

abbrev pub jump_size : ℕ
jump_size = 5

abbrev pub trap_instruction : ℕ
trap_instruction = 0xCC

pub traps : ℕ → List ℕ
traps zero = []
traps (suc n) = trap_instruction ∷ traps n

abbrev pub raw_size : ℕ
raw_size = max_instruction_size + jump_size

abbrev pub thunk_size : ℕ
thunk_size = 10

-- The loop that adds instructions until a jump has room.
pub measure : ℕ → ℕ → Mem → ℕ → ℕ → Result ℕ
measure zero fuel m target mark = err unending
measure (suc rounds) fuel m target mark = do
  next ← next_instruction fuel m mark
  let rest = measure rounds fuel m target next in
      if ltb (next - target) jump_size then rest else ok (next - target)

-- `m_target`, `m_size` and `m_hotpatched`.
pub record Place : Type 0 where
  pub target : ℕ
  pub size : ℕ
  pub hotpatched : Bool

abbrev followed : Option ℕ → Result ℕ
followed none = err unending
followed (some p) = ok p

-- The first half of the constructor, which finds out what to copy.
unfoldable pub locate : ℕ → ℕ → Mem → ℕ → Result Place
locate jumps fuel m target = do
  hotpatched ← is_hotpatchable fuel m target
  if hotpatched then ok (record { target = target; size = 2; hotpatched = true }) else do
    raw_target ← followed (follow_jumps jumps m target)
    size ← measure jump_size fuel m raw_target raw_target
    ok (record { target = raw_target; size = size; hotpatched = false })

abbrev pub entry : ℕ → ℕ → Option ℕ → ℕ
entry this callback none = callback
entry this callback (some thunk) = this + raw_size

-- The copy, the jump back behind it, and the thunk.
unfoldable pub fill_block : Mem → ℕ → Place → ℕ → Option ℕ → Mem
fill_block m this p callback thunk =
    let copied = write_bytes m this (read m p.target p.size) in
    let raw = write_bytes copied (this + p.size) (jump (this + p.size) (p.target + p.size)) in
    elim thunk [
      | none ↦ raw
      | some thunk ↦
          write_bytes raw (this + raw_size) (thiscall_thunk (this + raw_size) callback thunk)
    ]

-- The two bytes of `hotpatch_jump_instruction`, 0xF9EB.
abbrev pub hotpatch_jump : List ℕ
hotpatch_jump = 0xEB ∷ 0xF9 ∷ []

unfoldable pub redirect : Mem → Place → ℕ → Mem
redirect m p to =
    if p.hotpatched
    then (let before = p.target - jump_size in
        write_bytes (write_bytes m before (jump before to)) p.target hotpatch_jump)
    else (write_bytes (write_bytes m p.target (jump p.target to)) (p.target + jump_size)
        (traps (p.size - jump_size)))

-- The second half of the constructor.
unfoldable pub install : Mem → ℕ → Place → ℕ → Option ℕ → Mem
install m this p callback thunk =
    redirect (fill_block m this p callback thunk) p (entry this callback thunk)

-- The two arrays, filled with traps.
unfoldable pub fresh_block : Mem → ℕ → Mem
fresh_block m this =
    write_bytes (write_bytes m this (traps raw_size)) (this + raw_size) (traps thunk_size)

unfoldable pub construct : ℕ → ℕ → Mem → ℕ → ℕ → ℕ → Option ℕ → Result (Mem × Place)
construct jumps fuel m this target callback thunk = do
  p ← locate jumps fuel (fresh_block m this) target
  ok (install (fresh_block m this) this p callback thunk, p)
