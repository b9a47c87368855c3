-- ===== src/Commands/Escape.antt =====
-- core/src/command_manager.cpp: `escape`. The bytes from the mark up to the offset are `pending`.
-- The loop takes fuel: each round takes a code point off the rest.
use fenestra_voli_edition.Base.{
  ℕ, zero, suc, ◌+◌, ◌<◌, ◌≡◌, refl, Bool, true, false, ◌||◌, Option, none, some, [], ◌∷◌, ◌++◌,
  ◌==◌, if◌then◌else◌, length, take, drop, arith,
}
use fenestra_voli_edition.Unicode.{Bytes, Icu, next_code_point}
use fenestra_voli_edition.Commands.Names.{IsName, is_name_char, is_name_char_below}

unfoldable pub is_special : Icu → ℕ → Bool
is_special icu c = c == b'\\' || (c == b'\'' || (c == b'"' || icu.is_whitespace c))

unfoldable pub loop : ℕ → Icu → Bytes → Bytes → Bytes → Option Bytes
loop zero icu result pending rest = none
loop (suc fuel) icu result pending [] = some result
loop (suc fuel) icu result pending (b ∷ bs) =
    let (c, n) = next_code_point icu (b ∷ bs) in
    let character = take n (b ∷ bs) in
    loop fuel icu (if is_special icu c then (result ++ pending) ++ b'\\' ∷ [] else result)
      (if is_special icu c then character else pending ++ character) (drop n (b ∷ bs))

unfoldable pub escape : Icu → Bytes → Option Bytes
escape icu string = loop (length string + 1) icu [] [] string

name_ordinary : (icu : Icu) (b : ℕ) → is_name_char b ≡ true → (is_special icu b || false) ≡ false
unfolding is_special is_name_char
name_ordinary icu b h = ground (arith, h, icu.ascii_spaces b)

loop_name :
    (icu : Icu) (name result pending : Bytes) (fuel : ℕ)
    → IsName name
    → length name < fuel
    → loop fuel icu result pending name ≡ some result
unfolding loop next_code_point
loop_name icu name result pending zero h k = absurd (omega (arith, k))
loop_name icu [] result pending (suc fuel) h k = refl
loop_name icu (b ∷ bs) result pending (suc fuel) h k = ground (
  arith,
  icu.ascii b bs,
  is_name_char_below b h.0,
  name_ordinary icu b h.0,
  loop_name icu bs result (pending ++ b ∷ []) fuel h.1 (omega (arith, k)),
)

-- The escape of a name is empty: what stands behind the last special character is never written.
pub escape-IsName : (icu : Icu) (name : Bytes) → IsName name → escape icu name ≡ some []
unfolding escape
escape-IsName icu name h = loop_name icu name [] [] (length name + 1) h (omega arith)
