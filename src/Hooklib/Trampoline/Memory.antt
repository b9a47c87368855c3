-- ===== src/Hooklib/Trampoline/Memory.antt =====
-- core/src/hooklib/trampoline.cpp: what stands in memory after bytes were written.
use fenestra_voli_edition.Base.{
  ℕ, zero, suc, ◌+◌, ◌≤◌, ◌<◌, ◌≡◌, refl, ◌∙◌, ◌⊎◌, inl, inr, List, [], ◌∷◌, arith, length,
}
use fenestra_voli_edition.Hooklib.X86.Opcode.{Mem}
use fenestra_voli_edition.Hooklib.X86.Code.{AreBytes}
use fenestra_voli_edition.Hooklib.X86.Jump.{Holds, little_endian, jump, thiscall_thunk}
use fenestra_voli_edition.Hooklib.Trampoline.{
  fresh_block, raw_size, thunk_size, write_bytes, read, traps,
}

-- The `n` bytes from `p` on and the `k` bytes from `a` on have none in common.
abbrev pub IsApart : ℕ → ℕ → ℕ → ℕ → Type 0
IsApart p n a k = (p + n ≤ a) ⊎ (a + k ≤ p)

pub write_bytes_outside :
    (m : Mem) (a : ℕ) (bs : List ℕ) (p : ℕ)
    → (p < a) ⊎ (a + length bs ≤ p)
    → write_bytes m a bs p ≡ m p
unfolding write_bytes
write_bytes_outside m a [] p h = refl
write_bytes_outside m a (b ∷ bs) p (inl h) =
    ground (arith, write_bytes_outside m (a + 1) bs p (inl (omega (arith, h))), h)
write_bytes_outside m a (b ∷ bs) p (inr h) =
    ground (arith, write_bytes_outside m (a + 1) bs p (inr (omega (arith, h))), h)

-- Bytes stand in every memory that agrees on their places.
pub Holds-same :
    (m n : Mem) (p : ℕ) (bs : List ℕ)
    → ((q : ℕ) → p ≤ q → q < p + length bs → n q ≡ m q)
    → Holds m p bs
    → Holds n p bs
Holds-same m n p [] same h = tt
Holds-same m n p (b ∷ bs) same h = (
  same p (omega arith) (omega arith) ∙ h.0,
  Holds-same m n (p + 1) bs (λ q k l. same q (omega (arith, k)) (omega (arith, l))) h.1,
)

pub Holds-write_bytes : (m : Mem) (a : ℕ) (bs : List ℕ) → Holds (write_bytes m a bs) a bs
unfolding write_bytes
Holds-write_bytes m a [] = tt
Holds-write_bytes m a (b ∷ bs) = (
  ground arith,
  Holds-same (write_bytes m (a + 1) bs) (write_bytes m a (b ∷ bs)) (a + 1) bs
      (λ q k l. ground (arith, k)) (Holds-write_bytes m (a + 1) bs),
)

pub Holds-write_bytes_apart :
    (m : Mem) (a : ℕ) (cs : List ℕ) (p : ℕ) (bs : List ℕ)
    → IsApart p (length bs) a (length cs)
    → Holds m p bs
    → Holds (write_bytes m a cs) p bs
Holds-write_bytes_apart m a cs p bs (inl h) s =
    Holds-same m (write_bytes m a cs) p bs
      (λ q k l. write_bytes_outside m a cs q (inl (omega (arith, h, k, l)))) s
Holds-write_bytes_apart m a cs p bs (inr h) s =
    Holds-same m (write_bytes m a cs) p bs
      (λ q k l. write_bytes_outside m a cs q (inr (omega (arith, h, k, l)))) s

pub length-read : (m : Mem) (p n : ℕ) → length (read m p n) ≡ n
unfolding read
length-read m p zero = refl
length-read m p (suc n) = omega (arith, length-read m (p + 1) n)

pub length-traps : (n : ℕ) → length (traps n) ≡ n
unfolding traps
length-traps zero = refl
length-traps (suc n) = omega (arith, length-traps n)

pub length-jump : (raw target : ℕ) → length (jump raw target) ≡ 5
unfolding jump little_endian
length-jump raw target = refl

pub length-thiscall_thunk :
    (raw this_ptr target : ℕ) → length (thiscall_thunk raw this_ptr target) ≡ 10
unfolding thiscall_thunk jump little_endian
length-thiscall_thunk raw this_ptr target = refl

write_bytes-lt :
    (m : Mem) (a : ℕ) (bs : List ℕ)
    → ((q : ℕ) → m q < 256)
    → AreBytes bs
    → (q : ℕ) → write_bytes m a bs q < 256
unfolding write_bytes
write_bytes-lt m a [] h k q = h q
write_bytes-lt m a (b ∷ bs) h k q = ground (arith, k.0, write_bytes-lt m (a + 1) bs h k.1 q)

traps-AreBytes : (n : ℕ) → AreBytes (traps n)
unfolding traps
traps-AreBytes zero = tt
traps-AreBytes (suc n) = (omega arith, traps-AreBytes n)

pub fresh_block-lt :
    (m : Mem) (this : ℕ) → ((q : ℕ) → m q < 256) → (q : ℕ) → fresh_block m this q < 256
unfolding fresh_block
fresh_block-lt m this h =
    write_bytes-lt (write_bytes m this (traps raw_size)) (this + raw_size) (traps thunk_size)
      (write_bytes-lt m this (traps raw_size) h (traps-AreBytes raw_size))
      (traps-AreBytes thunk_size)
