-- ===== src/Hooklib/X86/Code.antt =====
-- Code that is given as a list of bytes, from address 0 on, with zeros behind it.
use fenestra_voli_edition.Base.{ℕ, zero, suc, ◌<◌, List, [], ◌∷◌, arith, get_or}
use fenestra_voli_edition.Hooklib.X86.Opcode.{Mem}

abbrev pub code_of : List ℕ → Mem
code_of bytes a = get_or bytes a 0

abbrev pub AreBytes : List ℕ → Type 0
AreBytes [] = Unit {0}
AreBytes (b ∷ bs) = (b < 256) × AreBytes bs

pub code_of-lt : (bytes : List ℕ) → AreBytes bytes → (a : ℕ) → code_of bytes a < 256
code_of-lt [] h a = omega arith
code_of-lt (b ∷ bs) h zero = h.0
code_of-lt (b ∷ bs) h (suc a) = code_of-lt bs h.1 a
