-- ===== src/Numbers/Tests.antt =====
-- core/src/utility.cpp: `to_u8string` on single numbers.
use fenestra_voli_edition.Base.{ℕ, ◌≡◌, refl, true, none, some, List, [], ◌∷◌, ◌++◌, length, arith}
use fenestra_voli_edition.Numbers.{to_digits, to_chars, to_u8string, to_u8string_signed}
use fenestra_voli_edition.Numbers.Room.{parse-to_u8string}
use fenestra_voli_edition.Packages.Versions.{parse}

signed_char : to_u8string_signed 2 true 128 ≡ none
unfolding to_u8string_signed to_chars to_digits
signed_char = refl

parse-to_u8string_example :
    (ds : List ℕ) × (to_u8string 4 1234 ≡ some ds)
    × (parse (ds ++ b'.' ∷ b'5' ∷ []) 7 ≡ (length ds, 1234))
parse-to_u8string_example = parse-to_u8string 3 1234 7 (b'5' ∷ []) (omega arith) (omega arith)
