-- ===== src/Commands/Parse/Reference.antt =====
-- The grammar above `parse_command` in core/src/command_manager.cpp, read as a recursive descent:
-- `/`, then a name, then perhaps `:` and a name, up to the end or a space. It has no table and no
-- states, and shares with the code only the decoder and the result type.
use fenestra_voli_edition.Base.{
  ℕ, ◌+◌, ◌≡◌, ◌⊎◌, inl, inr, refl, ap, true, false, none, some, [], ◌∷◌, ◌++◌, ◌==◌, if◌then◌else◌,
  length, drop, arith, Bool-cases,
}
use fenestra_voli_edition.Unicode.{Bytes, Icu, next_code_point}
use fenestra_voli_edition.Commands.Names.{is_name_char, is_name_char_below, IsName}
use fenestra_voli_edition.Commands.Parse.{
  Code, p1, p2, p3, p4, p5, Parsed, Result, ok, syntax_error, next, class_of,
}

-- The longest name at the front, and what follows it.
unfoldable pub span_name : Bytes → Bytes × Bytes
span_name [] = ([], [])
span_name (b ∷ bs) =
    let (name, rest) = span_name bs in if is_name_char b then (b ∷ name, rest) else ([], b ∷ bs)

pub data Follow : Type 0 where
  ending colon other : Follow

-- What stands behind a name.
unfoldable pub follow : Icu → Bytes → Follow
follow icu [] = ending
follow icu (b ∷ bs) =
    let c = (next_code_point icu (b ∷ bs)).0 in
    if c == b':' then colon else if icu.is_whitespace c then ending else other

abbrev raise : Code → ℕ → ℕ → Result Parsed
raise code begin end =
    syntax_error (record { code = code; mark_index = end; begin_index = begin; end_index = end })

-- The command's name behind a component and its colon; `from` is its offset.
unfoldable pub qualified : ℕ × ℕ → ℕ → Bytes → Follow → Result Parsed
qualified component from [] ending = raise p3 from from
qualified component from [] colon = raise p3 from from
qualified component from [] other = raise p5 from from
qualified component from (b ∷ name) ending =
    ok (record { component = some component; command = (from, from + length (b ∷ name)) })
qualified component from (b ∷ name) colon = raise p5 from (from + length (b ∷ name))
qualified component from (b ∷ name) other = raise p5 from (from + length (b ∷ name))

abbrev pub second_name : Icu → ℕ × ℕ → ℕ → Bytes × Bytes → Result Parsed
second_name icu component from (name, rest) = qualified component from name (follow icu rest)

-- The first name, which stands at the offset 1.
unfoldable pub first_name : Icu → Bytes → Bytes → Follow → Result Parsed
first_name icu [] rest ending = raise p2 1 1
first_name icu (b ∷ name) rest ending =
    ok (record { component = none; command = (1, 1 + length (b ∷ name)) })
first_name icu name rest colon =
    second_name icu (1, 1 + length name) (1 + length name + 1) (span_name (drop 1 rest))
first_name icu name rest other = raise p4 1 (1 + length name)

unfoldable pub reference : Icu → Bytes → Result Parsed
reference icu [] = raise p1 0 0
reference icu (b ∷ bs) =
    let (name, rest) = span_name bs in
    if b == b'/' then first_name icu name rest (follow icu rest) else raise p1 0 0

-- The text is cut at the first character that is no name's.
abbrev pub Stops : Bytes → Type 0
Stops [] = Unit {0}
Stops (b ∷ bs) = is_name_char b ≡ false

pub span_name_lem :
    (s : Bytes)
    → (s ≡ (span_name s).0 ++ (span_name s).1) × IsName (span_name s).0 × Stops (span_name s).1
unfolding span_name
span_name_lem [] = (refl, tt, tt)
span_name_lem (b ∷ bs) = elim (Bool-cases (is_name_char b)) [
  | inl h ↦ let (e, names, stops) = span_name_lem bs in rw h (ap (◌∷◌ b) e, (h, names), stops)
  | inr h ↦ rw h (refl, tt, h)
]

-- The character class behind a name, for each case of `follow`.
abbrev pub Classes : Icu → Bytes → Follow → Type 0
Classes icu r ending = (n : ℕ) × (next icu r ≡ (4, n))
Classes icu r colon = (r ≡ b':' ∷ drop 1 r) × (next icu r ≡ (1, 1))
Classes icu r other = ((n : ℕ) × (next icu r ≡ (0, n))) ⊎ ((n : ℕ) × (next icu r ≡ (3, n)))

-- The same of a code point alone.
abbrev ClassCases : Icu → ℕ → Type 0
ClassCases icu c =
    ((c ≡ b':') × (class_of icu c ≡ 1))
    ⊎ (((c == b':') ≡ false) × (icu.is_whitespace c ≡ true) × (class_of icu c ≡ 4))
    ⊎ (((c == b':') ≡ false)
        × (icu.is_whitespace c ≡ false)
        × ((class_of icu c ≡ 0) ⊎ (class_of icu c ≡ 3)))

class_cases : (icu : Icu) (c : ℕ) → is_name_char c ≡ false → ClassCases icu c
unfolding class_of
class_cases icu c h = ground (arith, icu.ascii_spaces 47 (omega arith))

-- A byte that is no name's character begins a code point that is none.
code_point_stops :
    (icu : Icu) (b : ℕ) (bs : Bytes)
    → is_name_char b ≡ false
    → is_name_char (icu.u8_next (b ∷ bs)).0 ≡ false
code_point_stops icu b bs h =
    ground
      (arith, icu.ascii b bs, icu.beyond_ascii b bs, is_name_char_below (icu.u8_next (b ∷ bs)).0)

-- A colon is one byte.
colon_byte :
    (icu : Icu) (b : ℕ) (bs : Bytes)
    → (icu.u8_next (b ∷ bs)).0 ≡ b':'
    → (b ≡ b':') × (icu.u8_next (b ∷ bs) ≡ (b, 1))
colon_byte icu b bs h = ground (arith, icu.ascii b bs, icu.beyond_ascii b bs)

pub follow-Classes : (icu : Icu) (r : Bytes) → Stops r → Classes icu r (follow icu r)
unfolding follow next next_code_point
follow-Classes icu [] h = (0, refl)
follow-Classes icu (b ∷ bs) h =
    cases (class_cases icu (icu.u8_next (b ∷ bs)).0 (code_point_stops icu b bs h))
  where
    c : ℕ
    c = (icu.u8_next (b ∷ bs)).0

    n : ℕ
    n = (icu.u8_next (b ∷ bs)).1

    cases : ClassCases icu (icu.u8_next (b ∷ bs)).0 → Classes icu (b ∷ bs) (follow icu (b ∷ bs))
    cases (inl (e, k)) =
        let (eb, en) = colon_byte icu b bs e in rw e (ap (λ x. x ∷ bs) eb, ground (arith, k, en))
    cases (inr (inl (e, w, k))) = rw (e, w) (n, rw k)
    cases (inr (inr (e, w, inl k))) = rw (e, w) (inl (n, rw k))
    cases (inr (inr (e, w, inr k))) = rw (e, w) (inr (n, rw k))
