-- ===== src/Hooklib/Trampoline/Block.antt =====
-- core/src/hooklib/trampoline.cpp: what stands in a new block.
use fenestra_voli_edition.Base.{
  ℕ, ◌+◌, ◌-◌, ◌≤◌, ◌<◌, ◌≡◌, ◌∙◌, ◌⊎◌, inl, inr, true, false, Option, none, some, List, arith,
  if◌then◌else◌,
}
use fenestra_voli_edition.Hooklib.X86.Opcode.{Mem}
use fenestra_voli_edition.Hooklib.X86.Length.{max_instruction_size}
use fenestra_voli_edition.Hooklib.X86.Jump.{address_mod, Holds, jump, thiscall_thunk}
use fenestra_voli_edition.Hooklib.Trampoline.{
  Place, write_bytes, read, jump_size, raw_size, thunk_size, fill_block,
}
use fenestra_voli_edition.Hooklib.Trampoline.Memory.{
  write_bytes_outside, Holds-write_bytes, Holds-write_bytes_apart, length-read, length-jump,
  length-thiscall_thunk,
}

-- What is written over: the function's start, and with a patch also the bytes in front.
abbrev pub patch_begin : Place → ℕ
patch_begin p = if p.hotpatched then p.target - jump_size else p.target

abbrev pub patch_end : Place → ℕ
patch_end p = p.target + p.size

abbrev pub block_size : ℕ
block_size = raw_size + thunk_size

-- The block and the bytes that are written over lie in memory, apart from each other.
abbrev pub IsLaidOut : ℕ → Place → Type 0
IsLaidOut this p =
    (this + block_size < address_mod)
    × (jump_size ≤ p.target)
    × (patch_end p < address_mod)
    × ((this + block_size ≤ patch_begin p) ⊎ (patch_end p ≤ this))

-- The copy leaves room for the jump behind it.
abbrev pub IsRoomy : Place → Type 0
IsRoomy p =
    (p.size ≤ max_instruction_size)
    × (((p.hotpatched ≡ true) × (p.size ≡ 2)) ⊎ ((p.hotpatched ≡ false) × (jump_size ≤ p.size)))

module _ (m : Mem) (this : ℕ) (p : Place) (callback : ℕ) where
  abbrev copied : Mem
  copied = write_bytes m this (read m p.target p.size)

  abbrev back : List ℕ
  back = jump (this + p.size) (p.target + p.size)

  abbrev raw : Mem
  raw = write_bytes copied (this + p.size) back

  raw_copy : Holds raw this (read m p.target p.size)
  raw_copy =
      let bytes = read m p.target p.size in
      Holds-write_bytes_apart copied (this + p.size) back this bytes
        (inl (omega (arith, length-read m p.target p.size))) (Holds-write_bytes m this bytes)

  pub fill_block_copy :
      (thunk : Option ℕ)
      → p.size ≤ max_instruction_size
      → Holds (fill_block m this p callback thunk) this (read m p.target p.size)
  unfolding fill_block
  fill_block_copy none h = raw_copy
  fill_block_copy (some thunk) h =
      let bytes = read m p.target p.size in
      Holds-write_bytes_apart raw (this + raw_size)
        (thiscall_thunk (this + raw_size) callback thunk) this bytes
        (inl (omega (arith, h, length-read m p.target p.size))) raw_copy

  pub fill_block_jump :
      (thunk : Option ℕ)
      → p.size ≤ max_instruction_size
      → Holds (fill_block m this p callback thunk) (this + p.size) back
  unfolding fill_block
  fill_block_jump none h = Holds-write_bytes copied (this + p.size) back
  fill_block_jump (some thunk) h =
      Holds-write_bytes_apart raw (this + raw_size)
        (thiscall_thunk (this + raw_size) callback thunk) (this + p.size) back
        (inl (omega (arith, h, length-jump (this + p.size) (p.target + p.size))))
        (Holds-write_bytes copied (this + p.size) back)

  pub fill_block_thunk :
      (thunk : ℕ)
      → Holds
          (fill_block m this p callback (some thunk))
          (this + raw_size)
          (thiscall_thunk (this + raw_size) callback thunk)
  unfolding fill_block
  fill_block_thunk thunk =
      Holds-write_bytes raw (this + raw_size) (thiscall_thunk (this + raw_size) callback thunk)

  raw_outside :
      (q : ℕ) → p.size ≤ max_instruction_size → (q < this) ⊎ (this + block_size ≤ q) → raw q ≡ m q
  raw_outside q h (inl k) =
      write_bytes_outside copied (this + p.size) back q (inl (omega (arith, k)))
      ∙ write_bytes_outside m this (read m p.target p.size) q (inl k)
  raw_outside q h (inr k) =
      write_bytes_outside copied (this + p.size) back q
        (inr (omega (arith, h, k, length-jump (this + p.size) (p.target + p.size))))
      ∙ write_bytes_outside m this (read m p.target p.size) q
          (inr (omega (arith, h, k, length-read m p.target p.size)))

  pub fill_block_outside :
      (thunk : Option ℕ) (q : ℕ)
      → p.size ≤ max_instruction_size
      → (q < this) ⊎ (this + block_size ≤ q)
      → fill_block m this p callback thunk q ≡ m q
  unfolding fill_block
  fill_block_outside none q h k = raw_outside q h k
  fill_block_outside (some thunk) q h (inl k) =
      write_bytes_outside raw (this + raw_size) (thiscall_thunk (this + raw_size) callback thunk) q
        (inl (omega (arith, k)))
      ∙ raw_outside q h (inl k)
  fill_block_outside (some thunk) q h (inr k) =
      write_bytes_outside raw (this + raw_size) (thiscall_thunk (this + raw_size) callback thunk) q
        (inr (omega (arith, k, length-thiscall_thunk (this + raw_size) callback thunk)))
      ∙ raw_outside q h (inr k)
