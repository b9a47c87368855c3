-- ===== src/Hooklib/Trampoline/Installed.antt =====
-- core/src/hooklib/trampoline.cpp: what an installed hook does.
use fenestra_voli_edition.Base.{
  ℕ, ◌+◌, ◌≤◌, ◌<◌, ◌≡◌, ◌∙◌, ◌⊎◌, inl, inr, Option, none, some, List, length, arith, if◌then◌else◌,
}
use fenestra_voli_edition.Hooklib.X86.Opcode.{Mem}
use fenestra_voli_edition.Hooklib.X86.Length.{ok, next_instruction}
use fenestra_voli_edition.Hooklib.X86.Jump.{address_mod, Holds, word_at, jump, thiscall_thunk}
use fenestra_voli_edition.Hooklib.X86.Follow.{
  processor_target, processor_target-jump, thiscall_thunk_lem,
}
use fenestra_voli_edition.Hooklib.Trampoline.{Place, read, raw_size, entry, fill_block, install}
use fenestra_voli_edition.Hooklib.Trampoline.Memory.{
  Holds-same, length-read, length-jump, length-thiscall_thunk,
}
use fenestra_voli_edition.Hooklib.Trampoline.Block.{
  IsRoomy, IsLaidOut, patch_begin, patch_end, block_size, fill_block_copy, fill_block_jump,
  fill_block_thunk, fill_block_outside,
}
use fenestra_voli_edition.Hooklib.Trampoline.Redirect.{
  after_jumps, redirect_outside, redirect_leads,
}

module _ (m : Mem) (this : ℕ) (p : Place) (callback : ℕ) where
  -- What stands in the block stays there when the function is redirected.
  install_keeps :
      (thunk : Option ℕ) (a : ℕ) (bs : List ℕ)
      → IsRoomy p
      → IsLaidOut this p
      → this ≤ a
      → a + length bs ≤ this + block_size
      → Holds (fill_block m this p callback thunk) a bs
      → Holds (install m this p callback thunk) a bs
  unfolding install
  install_keeps thunk a bs roomy (fits, above, below, apart) l h =
      Holds-same (fill_block m this p callback thunk) (install m this p callback thunk) a bs
        (λ q i j.
          redirect_outside (fill_block m this p callback thunk) p (entry this callback thunk) q
            roomy above
            (elim apart [
              | inl k ↦ inl (omega (arith, k, h, j))
              | inr k ↦ inr (omega (arith, k, l, i))
            ]))

  -- In a block with room for the jump, and apart from the bytes that are written over, the original bytes
  -- are followed by a jump to where they end in the function.
  pub install-read :
      (thunk : Option ℕ)
      → IsRoomy p
      → IsLaidOut this p
      → Holds (install m this p callback thunk) this (read m p.target p.size)
        × (processor_target (install m this p callback thunk) (this + p.size) ≡ some (patch_end p))
  install-read thunk roomy laid =
      let (fits, above, below, apart) = laid in
      let back = jump (this + p.size) (p.target + p.size) in
      let n = install m this p callback thunk in
      (
        install_keeps thunk this (read m p.target p.size) roomy laid (omega arith)
            (omega (arith, roomy.0, length-read m p.target p.size))
            (fill_block_copy m this p callback thunk roomy.0),
        (processor_target-jump n (this + p.size) (patch_end p) (omega (arith, roomy.0, fits)) below
            (install_keeps thunk (this + p.size) back roomy laid (omega arith)
              (omega (arith, roomy.0, length-jump (this + p.size) (p.target + p.size)))
              (fill_block_jump m this p callback thunk roomy.0))).0,
      )

  -- A hooked function leads to the callback, or to the block's thunk: by one jump, or by two where it is
  -- hotpatched.
  pub install-entry :
      (thunk : Option ℕ)
      → IsRoomy p
      → IsLaidOut this p
      → callback < address_mod
      → after_jumps (if p.hotpatched then 2 else 1) (install m this p callback thunk) p.target
        ≡ some (entry this callback thunk)
  unfolding install
  install-entry none roomy (fits, above, below, apart) h =
      redirect_leads (fill_block m this p callback none) p callback roomy above below h
  install-entry (some thunk) roomy (fits, above, below, apart) h =
      redirect_leads (fill_block m this p callback (some thunk)) p (this + raw_size) roomy above
        below (omega (arith, fits))

  -- The block's thunk loads the callback and jumps to the thunk that is given.
  pub install-thiscall_thunk :
      (thunk : ℕ)
      → IsRoomy p
      → IsLaidOut this p
      → callback < address_mod
      → thunk < address_mod
      → let n = install m this p callback (some thunk) in
        let at = entry this callback (some thunk) in
        (next_instruction 1 n at ≡ ok (at + 5))
        × (word_at n (at + 1) ≡ callback)
        × (processor_target n (at + 5) ≡ some thunk)
  install-thiscall_thunk thunk roomy laid h k =
      let (fits, above, below, apart) = laid in
      let at = this + raw_size in
      thiscall_thunk_lem (install m this p callback (some thunk)) at callback thunk
        (omega (arith, fits)) h k
        (install_keeps (some thunk) at (thiscall_thunk at callback thunk) roomy laid (omega arith)
          (omega (arith, length-thiscall_thunk at callback thunk))
          (fill_block_thunk m this p callback thunk))

  -- Nothing else is written: outside the block and the bytes of the patch, memory is as it was.
  pub install_outside :
      (thunk : Option ℕ) (q : ℕ)
      → IsRoomy p
      → IsLaidOut this p
      → (q < this) ⊎ (this + block_size ≤ q)
      → (q < patch_begin p) ⊎ (patch_end p ≤ q)
      → install m this p callback thunk q ≡ m q
  unfolding install
  install_outside thunk q roomy (fits, above, below, apart) h k =
      redirect_outside (fill_block m this p callback thunk) p (entry this callback thunk) q roomy
        above k
      ∙ fill_block_outside m this p callback thunk q roomy.0 h
