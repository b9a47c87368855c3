-- ===== src/Markdown/Colors.antt =====
-- core/src/ui/markdown.cpp: colors in hexadecimal digits, and strokes.
use fenestra_voli_edition.Base.{
  ℕ, ◌+◌, ◌-◌, ◌/◌, ◌%◌, ◌≤◌, ◌<◌, ◌≡◌, ◌↔◌, ◌⊎◌, inl, inr, refl, Bool-cases, none, some, [], ◌∷◌,
  ◌++◌, ◌==◌, ltb, if◌then◌else◌, arith,
}
use fenestra_voli_edition.Base.Order.{same_text, compare_text}
use fenestra_voli_edition.Markdown.Tables.{Text, codes}
use fenestra_voli_edition.Markdown.{
  returned, terminated, Color, rgb, rgba, extract_nibble, extract_byte, parse_rgb, parse_hex,
  parse_color,
}
use fenestra_voli_edition.Markdown.Options.{stroke_parts, split_space, parse_stroke, parse_keyed}

-- A character is read as a digit exactly if its low byte lies from 0 to F, or from W to f.
pub extract_nibble-lt :
    (c : ℕ)
    → (extract_nibble c < 16)
      ↔ (((b'0' ≤ c % 256) × (c % 256 ≤ b'F')) ⊎ ((b'W' ≤ c % 256) × (c % 256 ≤ b'f')))
unfolding extract_nibble
extract_nibble-lt c = (ground arith, ground arith)

-- The digits of a byte, from 0 to 9 and from A to F.
abbrev pub hex_digit : ℕ → ℕ
hex_digit d = if ltb d 10 then b'0' + d else b'A' + (d - 10)

abbrev pub hex_byte : ℕ → Text → Text
hex_byte b rest = hex_digit (b / 16) ∷ hex_digit (b % 16) ∷ rest

extract_nibble-hex_digit : (d : ℕ) → d < 16 → extract_nibble (hex_digit d) ≡ d
unfolding extract_nibble
extract_nibble-hex_digit d h = ground (arith, h)

extract_byte-hex_byte :
    (b : ℕ) → b < 256 → extract_byte (hex_digit (b / 16)) (hex_digit (b % 16)) ≡ some b
unfolding extract_byte
extract_byte-hex_byte b h = ground (
  arith,
  h,
  extract_nibble-hex_digit (b / 16) (omega (arith, h)),
  extract_nibble-hex_digit (b % 16) (omega arith),
)

abbrev pub print_color : Color → Text
print_color (rgb r g b) = b'#' ∷ hex_byte r (hex_byte g (hex_byte b []))
print_color (rgba r g b a) = b'#' ∷ hex_byte r (hex_byte g (hex_byte b (hex_byte a [])))
print_color _ = []

parse_rgb-print :
    (r g b : ℕ)
    → r < 256
    → g < 256
    → b < 256
    → parse_rgb
        (hex_digit (r / 16))
        (hex_digit (r % 16))
        (hex_digit (g / 16))
        (hex_digit (g % 16))
        (hex_digit (b / 16))
        (hex_digit (b % 16))
      ≡ some (rgb r g b)
unfolding parse_rgb
parse_rgb-print r g b h k l =
    rw (parse_rgb, extract_byte-hex_byte r h, extract_byte-hex_byte g k, extract_byte-hex_byte b l)
      refl

-- A color in six or eight hexadecimal digits is read back, whatever stands behind its text in memory.
pub parse_color-print_color :
    (r g b a : ℕ) (behind : Text)
    → r < 256
    → g < 256
    → b < 256
    → a < 256
    → (parse_color (record { chars = print_color (rgb r g b); behind = behind })
        ≡ returned (some (rgb r g b)))
      × (parse_color (record { chars = print_color (rgba r g b a); behind = behind })
          ≡ returned (some (rgba r g b a)))
unfolding parse_color parse_hex
parse_color-print_color r g b a behind h k l m = (
  rw (parse_rgb-print r g b h k l) refl,
  rw (parse_rgb-print r g b h k l, extract_byte-hex_byte a m) refl,
)

split_space-last :
    (front : Text)
    → (split_space front).1 ≡ none
    → split_space (front ++ b' ' ∷ []) ≡ (front, some [])
unfolding split_space
split_space-last [] h = refl
split_space-last (c ∷ cs) h = elim (Bool-cases (c == b' ')) [
  | inl e ↦ absurd (ground (arith, h, e))
  | inr e ↦ rw (e, split_space-last cs (ground (arith, h, e))) refl
]

-- A stroke whose only space is its last character ends the process.
pub parse_keyed-terminated :
    (front : Text)
    → (split_space front).1 ≡ none
    → parse_keyed (codes "stroke") (front ++ b' ' ∷ []) ≡ terminated
unfolding parse_keyed parse_stroke stroke_parts parse_color same_text compare_text
parse_keyed-terminated front h = rw (stroke_parts, split_space-last front h) refl
