-- ===== src/Markdown.antt =====
-- core/src/ui/markdown.cpp: the parser of marked-up text. A text is its UTF-16 code units.
-- An index into the text is given with what stands from there on, so that no index is outside.
pub mod Tables
pub mod Options
pub mod Parse
pub mod Total
pub mod Inside
pub mod Colors
pub mod Quoted
mod Tests
use fenestra_voli_edition.Base.{
  ℕ, zero, suc, ◌+◌, ◌-◌, ◌*◌, ◌%◌, ◌^◌, ◌<◌, Bool, true, false, not, ◌&&◌, ◌||◌, Option, none,
  some, List, [], ◌∷◌, ◌++◌, ◌==◌, ltb, leb, if◌then◌else◌, length,
}
use fenestra_voli_edition.Base.Order.{same_text}
use fenestra_voli_edition.Markdown.Tables.{
  Text, codes, FontStretch, FontWeight, FontStyle, SizeUnit, relative, Power, stretch_values,
  weight_values, style_values, unit_values, size_values, color_values,
}

-- A call returns, or ends the process by an exception that leaves a function that throws none.
pub data Outcome (A : Type 0) : Type 0 where
  returned : A → Outcome A
  terminated out_of_fuel : Outcome A

infixl 5 ◌>>=◌
abbrev pub ◌>>=◌ : {A B : Type 0} → Outcome A → (A → Outcome B) → Outcome B
returned a >>= f = f a
terminated >>= f = terminated
out_of_fuel >>= f = out_of_fuel

-- A `wstring_view`, with what stands behind it in memory up to a zero: `wcscmp` reads both.
pub record View : Type 0 where
  pub chars : Text
  pub behind : Text

abbrev pub view : Text → View
view cs = record { chars = cs; behind = [] }

unfoldable pub until_zero : Text → Text
until_zero [] = []
until_zero (c ∷ cs) = let rest = until_zero cs in if c == 0 then [] else c ∷ rest

abbrev pub c_str : View → Text
c_str v = until_zero (v.chars ++ v.behind)

unfoldable pub find_key : {A : Type 0} → List (Text × A) → Text → Option A
find_key [] key = none
find_key ((k, a) ∷ rows) key =
    let rest = find_key rows key in if same_text k key then some a else rest

unfoldable pub lookup : {A : Type 0} → List (Text × A) → View → Option A
lookup table v = find_key table (c_str v)

unfoldable pub has_text : Text → List Text → Bool
has_text key [] = false
has_text key (k ∷ ks) = let rest = has_text key ks in same_text k key || rest

-- The value of a size: a named one, or digits and what they are divided by, before it is rounded to a float.
pub data SizeValue : Type 0 where
  named : Power → SizeValue
  digits : ℕ → ℕ → SizeValue

pub record FontSize : Type 0 where
  pub unit : SizeUnit
  pub value : SizeValue

pub data Color : Type 0 where
  of_name : Text → Color
  rgb : ℕ → ℕ → ℕ → Color
  rgba : ℕ → ℕ → ℕ → ℕ → Color

-- The variables of the loop of `parse_size`; the divisor is an `int`, in two's complement, and wraps around.
pub record SizeState : Type 0 where
  pub size_value : ℕ
  pub divisor : ℕ
  pub unit_name : Text

abbrev pub is_empty : Text → Bool
is_empty [] = true
is_empty (c ∷ cs) = false

abbrev pub is_positive : ℕ → Bool
is_positive divisor = ltb 0 divisor && ltb divisor (2 ^ 31)

unfoldable pub size_char : ℕ → SizeState → SizeState
size_char c s =
    if not (is_empty s.unit_name)
    then record s { unit_name = s.unit_name ++ c ∷ [] }
    else if c == b'.'
    then record s { divisor = 1 }
    else if ltb c b'0' || ltb 10 (c - b'0')
    then record s { unit_name = s.unit_name ++ c ∷ [] }
    else record s {
      size_value = s.size_value * 10 + (c - b'0');
      divisor = if is_positive s.divisor then (s.divisor * 10) % 2 ^ 32 else s.divisor;
    }

unfoldable pub size_chars : Text → SizeState → SizeState
size_chars [] s = s
size_chars (c ∷ cs) s = size_chars cs (size_char c s)

unfoldable pub parse_size : View → Option FontSize
parse_size v = elim (lookup size_values v) [
  | some (unit, power) ↦ some (record { unit = unit; value = named power })
  | none ↦
      let s = size_chars v.chars (record { size_value = 0; divisor = 0; unit_name = [] }) in
      let whole = if is_positive s.divisor then s.divisor else 1 in
      let divisor = if same_text s.unit_name (codes "%") then whole * 100 else whole in
      elim (lookup unit_values (view s.unit_name)) [
        | none ↦ none
        | some unit ↦ some (record { unit = unit; value = digits s.size_value divisor })
      ]
]

-- A `uint8_t`, which wraps around.
unfoldable pub extract_nibble : ℕ → ℕ
extract_nibble c =
    let first = (c + 256 - b'0') % 256 in
    let second = (first + 256 - 17 + 10) % 256 in
    if ltb first 10 then first else if ltb second 0x10 then second else (second + 256 - 32) % 256

-- `extract_byte` on the two characters at its index.
unfoldable pub extract_byte : ℕ → ℕ → Option ℕ
extract_byte c d =
    let first = extract_nibble c in
    let second = extract_nibble d in
    if leb 0x10 first || leb 0x10 second then none else some (first * 16 + second)

unfoldable pub parse_rgb : ℕ → ℕ → ℕ → ℕ → ℕ → ℕ → Option Color
parse_rgb c1 c2 c3 c4 c5 c6 = elim (extract_byte c1 c2) [
  | none ↦ none
  | some r ↦ elim (extract_byte c3 c4) [
    | none ↦ none
    | some g ↦ elim (extract_byte c5 c6) [ none ↦ none | some b ↦ some (rgb r g b) ]
  ]
]

abbrev with_alpha : Option Color → Option ℕ → Option Color
with_alpha (some (rgb r g b)) (some a) = some (rgba r g b a)
with_alpha _ _ = none

-- The characters behind the mark.
unfoldable pub parse_hex : Text → Option Color
parse_hex (c1 ∷ c2 ∷ c3 ∷ c4 ∷ c5 ∷ c6 ∷ []) = parse_rgb c1 c2 c3 c4 c5 c6
parse_hex (c1 ∷ c2 ∷ c3 ∷ c4 ∷ c5 ∷ c6 ∷ c7 ∷ c8 ∷ []) =
    with_alpha (parse_rgb c1 c2 c3 c4 c5 c6) (extract_byte c7 c8)
parse_hex _ = none

abbrev found_color : Bool → Text → Option Color
found_color true name = some (of_name name)
found_color false name = none

-- `value.at(0)` throws for the empty view.
unfoldable pub parse_color : View → Outcome (Option Color)
parse_color v = elim v.chars [
  | [] ↦ terminated
  | c ∷ cs ↦
      let name = c_str v in
      returned (if c == b'#' then parse_hex cs else found_color (has_text name color_values) name)
]
