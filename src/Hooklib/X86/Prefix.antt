-- ===== src/Hooklib/X86/Prefix.antt =====
-- core/src/hooklib/x86.cpp: `decode_prefix`.
-- The `while (true)` takes fuel: one round for each prefix and one for the byte that ends them.
use fenestra_voli_edition.Base.{
  ℕ, zero, suc, ◌+◌, ◌<◌, ◌≡◌, Bool, true, false, ◌||◌, Option, none, some, [], ◌∷◌, arith, ◌==◌,
  if◌then◌else◌, ◌≢◌,
}
use fenestra_voli_edition.Hooklib.X86.Opcode.{Mem, one_of}

pub data Kind : Type 0 where
  other plain operand_size address_size : Kind

-- The `switch` on the byte.
unfoldable pub kind : ℕ → Kind
unfolding one_of
kind byte =
    if one_of byte (0o46 ∷ 0o56 ∷ 0o66 ∷ 0o76 ∷ 0o144 ∷ 0o145 ∷ 0o360 ∷ 0o362 ∷ 0o363 ∷ [])
    then plain
    else if byte == 0o146
    then operand_size
    else if byte == 0o147
    then address_size
    else other

pub record Cursor : Type 0 where
  pub it : ℕ
  pub operand_override : Bool
  pub address_override : Bool

unfoldable pub decode_prefix : ℕ → Mem → ℕ → Bool → Bool → Option Cursor
decode_prefix zero m it oo ao = none
decode_prefix (suc fuel) m it oo ao = elim (kind (m it)) [
  | other ↦ some (record { it = it; operand_override = oo; address_override = ao })
  | plain ↦ decode_prefix fuel m (it + 1) oo ao
  | operand_size ↦ decode_prefix fuel m (it + 1) true ao
  | address_size ↦ decode_prefix fuel m (it + 1) oo true
]

-- The architecture's prefix bytes, in ascending order.
unfoldable pub is_prefix : ℕ → Bool
unfolding one_of
is_prefix b =
    one_of b (0x26 ∷ 0x2E ∷ 0x36 ∷ 0x3E ∷ 0x64 ∷ 0x65 ∷ 0x66 ∷ 0x67 ∷ 0xF0 ∷ 0xF2 ∷ 0xF3 ∷ [])

-- From `p` on stand `n` prefixes and then a byte that is none.
abbrev pub PrefixRun : Mem → ℕ → ℕ → Type 0
PrefixRun m p zero = is_prefix (m p) ≡ false
PrefixRun m p (suc n) = (is_prefix (m p) ≡ true) × PrefixRun m (p + 1) n

-- Is the byte `b` among the `n` from `p` on?
abbrev pub seen : ℕ → Mem → ℕ → ℕ → Bool
seen b m p zero = false
seen b m p (suc n) = m p == b || seen b m (p + 1) n

kind_of_other : (b : ℕ) → is_prefix b ≡ false → kind b ≡ other
unfolding kind is_prefix
kind_of_other b h = ground arith

abbrev KindOf : Kind → ℕ → Type 0
KindOf other b = is_prefix b ≡ false
KindOf plain b = (b ≢ 0x66) × (b ≢ 0x67)
KindOf operand_size b = b ≡ 0x66
KindOf address_size b = b ≡ 0x67

kind-KindOf : (b : ℕ) → KindOf (kind b) b
unfolding kind is_prefix
kind-KindOf b = ground arith

-- The whole run is passed, and each override is set exactly if its byte was among the prefixes.
pub decode_prefix_lem :
    (n fuel : ℕ) (m : Mem) (p : ℕ) (oo ao : Bool)
    → PrefixRun m p n
    → n < fuel
    → decode_prefix fuel m p oo ao
      ≡ some (record {
        it = p + n;
        operand_override = oo || seen 0x66 m p n;
        address_override = ao || seen 0x67 m p n;
      })
unfolding decode_prefix
decode_prefix_lem n zero m p oo ao r h = absurd (omega arith)
decode_prefix_lem zero (suc fuel) m p oo ao r h = ground (arith, kind_of_other (m p))
decode_prefix_lem (suc n) (suc fuel) m p oo ao r h = ground (
  arith,
  kind-KindOf (m p),
  decode_prefix_lem n fuel m (p + 1) oo ao r.1,
  decode_prefix_lem n fuel m (p + 1) true ao r.1,
  decode_prefix_lem n fuel m (p + 1) oo true r.1,
)
