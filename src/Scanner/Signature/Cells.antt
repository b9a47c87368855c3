-- ===== src/Scanner/Signature/Cells.antt =====
-- core/src/scanner.hpp: the text of a pattern is read as the pattern.
use mathlib.Core.List.{append-nil, append_assoc}
use fenestra_voli_edition.Base.{
  ℕ, zero, suc, ◌+◌, ◌-◌, ◌/◌, ◌%◌, ◌≤◌, ◌<◌, ◌≡◌, refl, ap, sym, ◌∙◌, true, List, [], ◌∷◌, ◌++◌,
  some, ltb, if◌then◌else◌, length, length-append, arith,
}
use fenestra_voli_edition.Unicode.{Bytes}
use fenestra_voli_edition.Scanner.Signature.{
  go, entry, class_of, value, max_size, Cell, gap, gaps, Signature, ok, put_byte, act, round, loop,
  initial, signature,
}

-- A byte to look for, or one that is not looked at.
pub data Token : Type 0 where
  byte : ℕ → Token
  any : Token

abbrev pub hex_digit : ℕ → ℕ
hex_digit n = if ltb n 10 then b'0' + n else b'A' + n - 10

abbrev pub print : List Token → Bytes
print [] = []
print (byte b ∷ ts) = hex_digit (b / 16) ∷ hex_digit (b % 16) ∷ print ts
print (any ∷ ts) = b'?' ∷ b'?' ∷ print ts

-- Gaps in front of cells, and none in front of no cells.
abbrev pub pad : ℕ → List Cell → List Cell
pad n [] = []
pad n (c ∷ cs) = gaps n ++ c ∷ cs

-- The cells of a pattern: it ends with its last byte.
abbrev pub cells : List Token → List Cell
cells [] = []
cells (byte b ∷ ts) = record { data_ = b; mask = 0xFF } ∷ cells ts
cells (any ∷ ts) = pad 1 (cells ts)

abbrev pub AreBytes : List Token → Type 0
AreBytes [] = Unit {0}
AreBytes (byte b ∷ ts) = (b < 256) × AreBytes ts
AreBytes (any ∷ ts) = AreBytes ts

value-hex_digit : (n : ℕ) → n < 16 → value (hex_digit n) ≡ n
unfolding value
value-hex_digit n h = ground (arith, h)

class_of-hex_digit : (n : ℕ) → n < 16 → class_of (hex_digit n) ≡ 0
unfolding class_of
class_of-hex_digit n h = ground (arith, h)

length-gaps : (n : ℕ) → length (gaps n) ≡ n
length-gaps zero = refl
length-gaps (suc n) = ap suc (length-gaps n)

gaps-suc : (n : ℕ) (cs : List Cell) → gaps n ++ gap ∷ cs ≡ gap ∷ gaps n ++ cs
gaps-suc zero cs = refl
gaps-suc (suc n) cs = ap (◌∷◌ gap) (gaps-suc n cs)

pad-suc : (n : ℕ) (cs : List Cell) → pad (suc n) cs ≡ pad n (pad 1 cs)
pad-suc n [] = refl
pad-suc n (c ∷ cs) = sym (gaps-suc n (c ∷ cs))

pad-zero : (cs : List Cell) → pad 0 cs ≡ cs
pad-zero [] = refl
pad-zero (c ∷ cs) = refl

-- One character.
turn :
    (c : ℕ) (cs : Bytes) (state offset : ℕ) (s : Signature) {k state' action : ℕ} {s' : Signature}
    → class_of c ≡ k
    → entry state k ≡ some (go state', action)
    → act action offset c s ≡ ok s'
    → loop (c ∷ cs) state offset s ≡ loop cs state' (offset + 1) s'
unfolding loop round
turn c cs state offset s e f g = ground (arith, e, f, g)

abbrev with_byte : ℕ → Signature → Signature
with_byte b s = record s {
  cells = (s.cells ++ gaps s.mask_count) ++ record { data_ = b; mask = 0xFF } ∷ [];
  high_nibble = b / 16;
  mask_count = 0;
}

act_low :
    (b offset : ℕ) (s : Signature)
    → b < 256
    → length s.cells + s.mask_count < max_size
    → act 2 offset (hex_digit (b % 16)) (record s { high_nibble = b / 16 }) ≡ ok (with_byte b s)
unfolding act put_byte
act_low b offset s h k = ground (arith, h, k, value-hex_digit (b % 16))

act_high :
    (b offset : ℕ) (s : Signature)
    → b < 256
    → act 1 offset (hex_digit (b / 16)) s ≡ ok (record s { high_nibble = b / 16 })
unfolding act
act_high b offset s h = ground (arith, h, value-hex_digit (b / 16))

-- The two digits of a byte, from a state in which a byte may start.
turn_byte :
    (b : ℕ) (cs : Bytes) (state offset : ℕ) (s : Signature)
    → entry state 0 ≡ some (go 3, 1)
    → b < 256
    → length s.cells + s.mask_count < max_size
    → loop (hex_digit (b / 16) ∷ hex_digit (b % 16) ∷ cs) state offset s
      ≡ loop cs 6 (offset + 1 + 1) (with_byte b s)
unfolding entry
turn_byte b cs state offset s e h k =
    turn (hex_digit (b / 16)) (hex_digit (b % 16) ∷ cs) state offset s
      (class_of-hex_digit (b / 16) (omega (arith, h))) e (act_high b offset s h)
    ∙ turn (hex_digit (b % 16)) cs 3 (offset + 1) (record s { high_nibble = b / 16 })
        (class_of-hex_digit (b % 16) (omega arith)) refl (act_low b (offset + 1) s h k)

turn_any :
    (cs : Bytes) (offset : ℕ) (s : Signature)
    → loop (b'?' ∷ b'?' ∷ cs) 6 offset s
      ≡ loop cs 6 (offset + 1 + 1) (record s { mask_count = s.mask_count + 1 })
unfolding entry class_of act
turn_any cs offset s =
    turn b'?' (b'?' ∷ cs) 6 offset s refl refl refl ∙ turn b'?' cs 8 (offset + 1) s refl refl refl

with_byte_bound :
    (b : ℕ) (ts : List Token) (s : Signature)
    → length s.cells + s.mask_count + length (byte b ∷ ts) ≤ max_size
    → length (with_byte b s).cells + (with_byte b s).mask_count + length ts ≤ max_size
with_byte_bound b ts s k = omega (
  arith,
  k,
  length-append (s.cells ++ gaps s.mask_count) (record { data_ = b; mask = 0xFF } ∷ []),
  length-append s.cells (gaps s.mask_count),
  length-gaps s.mask_count,
)

-- The loop reads the pattern and ends with these cells and the offset behind the last one.
abbrev Reads : Bytes → ℕ → ℕ → Signature → List Cell → Type 0
Reads cs state offset s all =
    (s' : Signature) × (loop cs state offset s ≡ ok s')
    × (s'.cells ≡ all)
    × (s'.dereference ≡ s.dereference)
    × (s'.offset_up ≡ length s'.cells)
    × (s'.offset_down ≡ 0)

loop_tokens :
    (ts : List Token) (offset : ℕ) (s : Signature)
    → AreBytes ts
    → length s.cells + s.mask_count + length ts ≤ max_size
    → Reads (print ts) 6 offset s (s.cells ++ pad s.mask_count (cells ts))
unfolding loop round entry act
loop_tokens [] offset s h k = (
  record s { offset_up = length s.cells; offset_down = 0 },
  refl,
  sym (append-nil s.cells),
  refl,
  refl,
  refl,
)
loop_tokens (any ∷ ts) offset s h k =
    let (s', e, c, d, u, z) =
      loop_tokens ts (offset + 1 + 1) (record s { mask_count = s.mask_count + 1 }) h
        (omega (arith, k)) in
    let m : s.mask_count + 1 ≡ suc s.mask_count = omega arith in
    let p : pad (s.mask_count + 1) (cells ts) ≡ pad s.mask_count (pad 1 (cells ts)) =
      ap (λ n. pad n (cells ts)) m ∙ pad-suc s.mask_count (cells ts) in
    (s', turn_any (print ts) offset s ∙ e, c ∙ ap (λ x. s.cells ++ x) p, d, u, z)
loop_tokens (byte b ∷ ts) offset s h k =
    let (s', e, c, d, u, z) =
      loop_tokens ts (offset + 1 + 1) (with_byte b s) h.1 (with_byte_bound b ts s k) in
    (
      s',
      turn_byte b (print ts) 6 offset s refl h.0 (omega (arith, k)) ∙ e,
      c ∙ simp (pad-zero (cells ts), append_assoc),
      d,
      u,
      z,
    )

-- The text of a pattern that starts with a byte is read as the pattern up to its last byte, with the
-- offset behind it, to be dereferenced. The pattern has at most 64 bytes and wildcards.
pub signature-print :
    (b : ℕ) (ts : List Token)
    → b < 256
    → AreBytes ts
    → length ts < max_size
    → (s : Signature) × (signature (print (byte b ∷ ts)) ≡ ok s)
      × (s.cells ≡ cells (byte b ∷ ts))
      × (s.dereference ≡ true)
      × (s.offset_up ≡ length s.cells)
      × (s.offset_down ≡ 0)
unfolding signature entry
signature-print b ts h hs k =
    let (s, e, c, d, u, z) =
      loop_tokens ts (0 + 1 + 1) (with_byte b initial) hs (omega (arith, k)) in
    (
      s,
      turn_byte b (print ts) 0 0 initial refl h (omega arith) ∙ e,
      c ∙ simp (pad-zero (cells ts)),
      d,
      u,
      z,
    )
