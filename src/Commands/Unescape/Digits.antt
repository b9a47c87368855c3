-- ===== src/Commands/Unescape/Digits.antt =====
-- core/src/command_manager.cpp: what `unescape` makes of a `\u` with four digits.
use mathlib.Core.List.{append-nil, append_assoc}
use fenestra_voli_edition.Base.{
  ℕ, ◌+◌, ◌-◌, ◌*◌, ◌^◌, ◌≤◌, ◌<◌, ◌≡◌, ◌≢◌, refl, ap, sym, ◌∙◌, some, [], ◌∷◌, ◌++◌, arith, Bool,
  true, within, ◌||◌, leb, if◌then◌else◌,
}
use fenestra_voli_edition.Unicode.{Bytes}
use fenestra_voli_edition.Commands.Unescape.{
  entry, class_of, State, act, put_value, loop, unescape, hex_value, shift_in,
}
use fenestra_voli_edition.Commands.Unescape.Correct.{round_step, loop_step}

abbrev pub is_hex : ℕ → Bool
is_hex c = within b'0' b'9' c || within b'A' b'F' c || within b'a' b'f' c

-- The value of a hexadecimal digit.
abbrev pub digit : ℕ → ℕ
digit c = if leb c b'9' then c - b'0' else if leb c b'F' then c - b'A' + 10 else c - b'a' + 10

pub hex_value-digit : (c : ℕ) → is_hex c ≡ true → hex_value c ≡ digit c
unfolding hex_value
hex_value-digit c h = ground (arith, h)

digit_bound : (c : ℕ) → is_hex c ≡ true → digit c < 16
digit_bound c h = ground (arith, h)

class_of_hex : (c : ℕ) → is_hex c ≡ true → class_of c ≡ 2
unfolding class_of
class_of_hex c h = ground (arith, h)

-- No byte is a backslash.
abbrev pub Plain : Bytes → Type 0
Plain [] = Unit {0}
Plain (c ∷ s) = (c ≢ b'\\') × Plain s

module _ (append : ℕ → Bytes) where
  entry-Plain : (c : ℕ) → c ≢ b'\\' → entry 0 (class_of c) ≡ some (0, 0)
  unfolding entry class_of
  entry-Plain c h = ground (arith, h)

  -- A byte that is no backslash joins the pending ones.
  turn_plain :
      (c : ℕ) (rest result pending : Bytes) (value : ℕ)
      → c ≢ b'\\'
      → loop append (c ∷ rest) 0 (record { result = result; pending = pending; value = value })
        ≡ loop append rest 0
            (record { result = result; pending = pending ++ c ∷ []; value = value })
  unfolding act
  turn_plain c rest result pending value h =
      loop_step append 0 c rest _ (round_step append 0 c _ (entry-Plain c h) refl)

  loop-Plain :
      (p rest result pending : Bytes) (value : ℕ)
      → Plain p
      → loop append (p ++ rest) 0 (record { result = result; pending = pending; value = value })
        ≡ loop append rest 0 (record { result = result; pending = pending ++ p; value = value })
  loop-Plain [] rest result pending value h = rw (append-nil pending) refl
  loop-Plain (c ∷ p) rest result pending value h =
      turn_plain c (p ++ rest) result pending value h.0
      ∙ loop-Plain p rest result (pending ++ c ∷ []) value h.1
      ∙ rw (append_assoc pending (c ∷ []) p) refl

  -- The value of four digits.
  abbrev pub value_4 : ℕ → ℕ → ℕ → ℕ → ℕ
  value_4 a b c d = ((digit a * 16 + digit b) * 16 + digit c) * 16 + digit d

  act_3 :
      (c : ℕ) (result pending : Bytes) (value v : ℕ)
      → shift_in value c ≡ v
      → act append 3 c (record { result = result; pending = pending; value = value })
        ≡ some (record { result = result; pending = pending ++ c ∷ []; value = v })
  unfolding act
  act_3 c result pending value v e = rw e refl

  act_4 :
      (c : ℕ) (result pending : Bytes) (value v : ℕ)
      → shift_in value c ≡ v
      → v ≤ 0x10FFFF
      → act append 4 c (record { result = result; pending = pending; value = value })
        ≡ some (record { result = result ++ append v; pending = []; value = v })
  unfolding act put_value
  act_4 c result pending value v e h = ground (arith, e, h)

  shift_in_lem :
      (value c : ℕ) → is_hex c ≡ true → value < 2 ^ 28 → shift_in value c ≡ value * 16 + digit c
  unfolding shift_in
  shift_in_lem value c h k = omega (arith, hex_value-digit c h, k)

  entry_hex :
      (state c n k : ℕ)
      → is_hex c ≡ true
      → entry state 2 ≡ some (n, k)
      → entry state (class_of c) ≡ some (n, k)
  entry_hex state c n k h e = rw (class_of_hex c h) e

  abbrev state_of : Bytes → Bytes → ℕ → State
  state_of result pending value = record { result = result; pending = pending; value = value }

  -- A digit that is not the last is shifted in.
  turn_digit :
      (state n c : ℕ) (rest result pending : Bytes) (value : ℕ)
      → is_hex c ≡ true
      → entry state 2 ≡ some (n, 3)
      → value < 2 ^ 28
      → loop append (c ∷ rest) state (state_of result pending value)
        ≡ loop append rest n (state_of result (pending ++ c ∷ []) (value * 16 + digit c))
  turn_digit state n c rest result pending value h e k = loop_step append state c rest _ (
      round_step append state c _ (entry_hex state c n 3 h e)
        (act_3 c result pending value (value * 16 + digit c) (shift_in_lem value c h k)))

  -- The last of four digits writes the code point.
  turn_last :
      (state c : ℕ) (rest result pending : Bytes) (value : ℕ)
      → is_hex c ≡ true
      → entry state 2 ≡ some (0, 4)
      → value < 2 ^ 16
      → loop append (c ∷ rest) state (state_of result pending value)
        ≡ loop append rest 0
            (state_of (result ++ append (value * 16 + digit c)) [] (value * 16 + digit c))
  turn_last state c rest result pending value h e k = loop_step append state c rest _ (
      round_step append state c _ (entry_hex state c 0 4 h e) (
        act_4 c result pending value (value * 16 + digit c)
          (shift_in_lem value c h (omega (arith, k))) (omega (arith, digit_bound c h, k))))

  turn_4 :
      (a b c d : ℕ) (rest result pending : Bytes) (value : ℕ)
      → is_hex a ≡ true
      → is_hex b ≡ true
      → is_hex c ≡ true
      → is_hex d ≡ true
      → loop append
          (b'\\' ∷ b'u' ∷ a ∷ b ∷ c ∷ d ∷ rest)
          0
          (record { result = result; pending = pending; value = value })
        ≡ loop append rest 0 (record {
          result = (result ++ pending) ++ append (value_4 a b c d);
          pending = [];
          value = value_4 a b c d;
        })
  unfolding entry class_of act
  turn_4 a b c d rest result pending value ha hb hc hd =
      let v1 : ℕ = digit a in
      let first : 0 * 16 + digit a ≡ digit a = omega arith in
      let v2 : ℕ = v1 * 16 + digit b in
      let v3 : ℕ = v2 * 16 + digit c in
      let r : Bytes = result ++ pending in
      loop_step append 0 b'\\' _ _ (round_step append 0 b'\\' _ refl refl)
      ∙ loop_step append 1 b'u' _ _ (round_step append 1 b'u' _ refl refl)
      ∙ turn_digit 2 3 a _ r _ 0 ha refl (omega arith)
      ∙ ap (λ v. loop append (b ∷ c ∷ d ∷ rest) 3 (state_of r (b'u' ∷ a ∷ []) v)) first
      ∙ turn_digit 3 5 b _ r _ v1 hb refl (omega (arith, digit_bound a ha))
      ∙ turn_digit 5 7 c _ r _ v2 hc refl (omega (arith, digit_bound a ha, digit_bound b hb))
      ∙ turn_last 7 d _ r _ v3 hd refl
          (omega (arith, digit_bound a ha, digit_bound b hb, digit_bound c hc))

  -- In a text without another backslash, `\u` and four hexadecimal digits are replaced by the code
  -- point that they write. The rest of the text is unchanged.
  pub unescape_code_point :
      (p q : Bytes) (a b c d : ℕ)
      → Plain p
      → Plain q
      → is_hex a ≡ true
      → is_hex b ≡ true
      → is_hex c ≡ true
      → is_hex d ≡ true
      → unescape append (p ++ b'\\' ∷ b'u' ∷ a ∷ b ∷ c ∷ d ∷ q)
        ≡ some ((p ++ append (value_4 a b c d)) ++ q)
  unfolding unescape loop
  unescape_code_point p q a b c d hp hq ha hb hc hd =
      loop-Plain p _ [] [] 0 hp
      ∙ turn_4 a b c d q [] p 0 ha hb hc hd
      ∙ ap (λ x. loop append x 0 (state_of (p ++ append (value_4 a b c d)) [] (value_4 a b c d)))
          (sym (append-nil q))
      ∙ loop-Plain q [] (p ++ append (value_4 a b c d)) [] (value_4 a b c d) hq
      ∙ refl

  -- A text without a backslash stays as it is.
  pub unescape-Plain : (p : Bytes) → Plain p → unescape append p ≡ some p
  unfolding unescape loop
  unescape-Plain p h =
      ap (λ x. loop append x 0 (state_of [] [] 0)) (sym (append-nil p)) ∙ loop-Plain p [] [] [] 0 h
