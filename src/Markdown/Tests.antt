-- ===== src/Markdown/Tests.antt =====
-- core/src/ui/markdown.cpp on single texts.
use fenestra_voli_edition.Base.{
  ℕ, ◌+◌, length, ◌≡◌, ◌⊎◌, refl, Bool, true, false, ◌&&◌, some, List, [], ◌∷◌, arith,
}
use fenestra_voli_edition.Base.Order.{same_text, compare_text}
use Prim.Native.Nat.Ordering.{lt}
use fenestra_voli_edition.Markdown.Tables.{
  Text, codes, stretch_values, weight_values, style_values, unit_values, size_values, color_values,
}
use fenestra_voli_edition.Markdown.{
  returned, terminated, ◌>>=◌, rgb, rgba, parse_color, until_zero, has_text,
}
use fenestra_voli_edition.Markdown.Options.{parse_keyed, add_option}
use fenestra_voli_edition.Markdown.Parse.{
  Fragment, choices, parse_format, parse_inner, parse_markdown, after_char, after_inner,
  after_format, format_char, format_start, end_option,
}
use fenestra_voli_edition.Markdown.Inside.{AreInside, parse_markdown-AreInside}
use fenestra_voli_edition.Markdown.Colors.{print_color, parse_color-print_color}
use fenestra_voli_edition.Markdown.Quoted.{add_options, print_format, parse_format-print_format}

-- The tables are sorted.
abbrev is_sorted : List Text → Bool
is_sorted [] = true
is_sorted (k ∷ []) = true
is_sorted (k ∷ l ∷ ks) = elim (compare_text k l) [ lt ↦ is_sorted (l ∷ ks) | _ ↦ false ]

abbrev keys : {A : Type 0} → List (Text × A) → List Text
keys [] = []
keys ((k, a) ∷ rows) = k ∷ keys rows

tables_sorted :
    is_sorted color_values
      && is_sorted (keys stretch_values)
      && is_sorted (keys weight_values)
      && is_sorted (keys style_values)
      && is_sorted (keys unit_values)
      && is_sorted (keys size_values)
    ≡ true
unfolding compare_text
tables_sorted = refl

parse_markdown-AreInside_example :
    (parse_markdown (codes "[a]{red}") ≡ terminated)
    ⊎ ((fs : List Fragment) × (parse_markdown (codes "[a]{red}") ≡ returned fs) × AreInside 8 fs)
parse_markdown-AreInside_example = parse_markdown-AreInside (codes "[a]{red}")

parse_color-print_color_example :
    (parse_color (record { chars = print_color (rgb 255 0 16); behind = [] })
      ≡ returned (some (rgb 255 0 16)))
    × (parse_color (record { chars = print_color (rgba 255 0 16 7); behind = [] })
        ≡ returned (some (rgba 255 0 16 7)))
parse_color-print_color_example =
    parse_color-print_color 255 0 16 7 [] (omega arith) (omega arith) (omega arith) (omega arith)

parse_format-print_format_example :
    (k : ℕ) × (parse_format
        (print_format
          (codes "color")
          (codes "#102030")
          ((codes "size", codes "2 em") ∷ [])
          (codes "x"))
        0
        format_start
      ≡ add_options [] (codes "color") (codes "#102030") ((codes "size", codes "2 em") ∷ [])
        >>= λ r. returned (r, k, b'}' ∷ codes "x"))
    × (k + 1 + 1
        ≡ 0
          + length (
              print_format
                (codes "color")
                (codes "#102030")
                ((codes "size", codes "2 em") ∷ [])
                (codes "x")))
parse_format-print_format_example =
    parse_format-print_format (codes "color") (codes "#102030") ((codes "size", codes "2 em") ∷ [])
      (codes "x") 0 (ground arith)

-- The bracket behind a bracket is passed over, and the second text is not formatted.
bracket_lost : parse_markdown (codes "[a][b]{color:red}") ≡ returned []
unfolding parse_markdown parse_inner after_inner after_format parse_format after_char format_char
bracket_lost = refl

-- The texts inside a bracket that has no format are lost.
inner_lost : parse_markdown (codes "[a [b]{color:red} ] x") ≡ returned []
unfolding parse_markdown parse_inner after_inner after_format parse_format after_char format_char
    end_option add_option parse_keyed same_text compare_text parse_color until_zero has_text choices
inner_lost = refl
