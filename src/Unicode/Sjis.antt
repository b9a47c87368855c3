-- ===== src/Unicode/Sjis.antt =====
-- core/src/unicode.cpp: Shift JIS with the client's extensions, which carry auto-translate phrases.
-- The tables of the characters are data, and arguments here. None is an index outside a table.
pub mod Phrases
pub mod Bounds
mod Tests
use fenestra_voli_edition.Base.{
  ℕ, ◌+◌, ◌-◌, ◌*◌, ◌/◌, ◌%◌, ◌^◌, Bool, not, ◌&&◌, ◌||◌, Option, none, some, List, [], ◌∷◌, ◌++◌,
  ◌==◌, ltb, leb, within, if◌then◌else◌, get_elem?,
}
use fenestra_voli_edition.Unicode.{Bytes, is_autotranslate}

-- `sjis_tables`
pub record Tables : Type 0 where
  pub decode_single_byte : List ℕ
  pub decode_double_byte : List ℕ
  pub encode : List ℕ

unfoldable pub next_code_unit : Bytes → ℕ × Bytes
next_code_unit [] = (0, [])
next_code_unit (b ∷ bs) = (b, bs)

-- The index is computed in bytes, which wrap around.
unfoldable pub double_index : ℕ → ℕ → ℕ
double_index byte0 byte1 =
    let row =
      if ltb byte0 0xE0
      then (byte0 + 256 - 0x81) % 256
      else if ltb byte0 0xFA
      then byte0 - 0xC1
      else byte0 - 0xCB in
    let column = if ltb byte1 0x80 then (byte1 + 256 - 0x1F) % 256 else byte1 - 0x20 in
    row * 0xE0 + column

-- The mask has the low byte if bit 0 of the type is set, and the high byte if bit 1 is.
unfoldable pub masked : ℕ → ℕ → ℕ → ℕ
masked type high low =
    (if type / 2 % 2 == 1 then high * 256 else 0) + (if type % 2 == 1 then low else 0)

-- `|` joins numbers with no bit in common here, but for the complement, which has the bits of 0xF0000.
unfoldable pub decode_autotranslate : ℕ → ℕ → ℕ → ℕ
decode_autotranslate byte0 byte2 byte3 =
    let type = if leb byte0 0x06 then 0x03 else if leb 0x17 byte0 then 0x14 else byte0 in
    let id = masked type byte2 byte3 in
    if leb type 0x06
    then (if leb id 0x7FFF then 0xF0000 + id else 0xFFFD)
    else if leb 0x13 type
    then (if leb id 0x7FFD then 0xF8000 + id else 0xFFFD)
    else if leb id 0xFFFD
    then 0x100000 + id
    else 2 ^ 32 - 1 - id

abbrev pub is_single : ℕ → Bool
is_single a =
    leb a 0x1D || leb 0xFE a || within 0x20 0x80 a || within 0xA0 0xDF a || within 0xF0 0xF9 a

abbrev pub with_rest : Bytes → Option ℕ → Option (ℕ × Bytes)
with_rest rest none = none
with_rest rest (some c) = some (c, rest)

-- Behind the bytes 0xFD and `b`.
unfoldable pub next_phrase : ℕ → Bytes → ℕ × Bytes
next_phrase b text =
    let (c, text1) = next_code_unit text in
    let (d, text2) = next_code_unit text1 in
    let (e, text3) = next_code_unit text2 in
    let (f, text4) = next_code_unit text3 in
    if c == 0 || d == 0 || e == 0 || f == 0
    then (0xFFFD, text4)
    else (decode_autotranslate b d e, text4)

-- `next_code_point` on the rest of the text, with what is left of it.
unfoldable pub next_sjis_code_point : Tables → Bytes → Option (ℕ × Bytes)
next_sjis_code_point t text =
    let (a, text1) = next_code_unit text in
    let (b, text2) = next_code_unit text1 in
    if is_single a
    then with_rest text1 (get_elem? t.decode_single_byte a)
    else if b == 0
    then some (0xFFFD, text2)
    else if a == 0x1E
    then some (0xF600 + b, text2)
    else if a == 0x1F
    then some (0xF700 + b, text2)
    else if a == 0x7F
    then some (0xF800 + b, text2)
    else if a == 0xFD
    then some (next_phrase b text2)
    else with_rest text2 (get_elem? t.decode_double_byte (double_index a b))

-- The parts of `to_autotranslate_id`.
unfoldable pub phrase_id : ℕ → ℕ
phrase_id cp =
    if leb 0x100000 cp
    then cp % 2 ^ 16
    else if leb cp 0xF00FF
    then 2 ^ 16 - 1 - cp % 2 ^ 16
    else cp % 2 ^ 15

unfoldable pub phrase_type : ℕ → ℕ → ℕ → ℕ
phrase_type cp a b =
    let mask = (1 + (if a == 0 then 0 else 2) + (if b == 0 then 0 else 1)) % 4 in
    if within 0xF0100 0xF7FFF cp && not (a == 0)
    then 0x02
    else if within 0xF8000 0xFFFFD cp
    then 0x13 + mask
    else if within 0x100000 0x10FFFD cp
    then 0x07 + mask
    else 0

abbrev pub no_zero : ℕ → ℕ
no_zero a = if a == 0 then 0xFF else a

unfoldable pub to_autotranslate_id : ℕ → ℕ → ℕ
to_autotranslate_id cp client_language =
    let id = phrase_id cp in
    let a = id / 2 ^ 8 % 2 ^ 8 in
    let b = id % 2 ^ 8 in
    let type = phrase_type cp a b in
    if not (is_autotranslate cp) || type == 0
    then 0
    else type + client_language * 2 ^ 8 + no_zero a * 2 ^ 16 + no_zero b * 2 ^ 24

unfoldable pub append_sjis : Tables → Bytes → ℕ → ℕ → Option Bytes
append_sjis t str code_point client_language =
    let id = to_autotranslate_id code_point client_language in
    if leb code_point 0xFFFF
    then elim (get_elem? t.encode (code_point * 2)) [
      | none ↦ none
      | some byte ↦ elim (get_elem? t.encode (code_point * 2 + 1)) [
        | none ↦ none
        | some last ↦ some (if byte == 0 then str ++ last ∷ [] else str ++ byte ∷ last ∷ [])
      ]
    ]
    else if id == 0
    then some (str ++ 0x85 ∷ 0x41 ∷ [])
    else some (
        str
        ++ 0xFD
          ∷ (id % 2 ^ 8)
          ∷ (id / 2 ^ 8 % 2 ^ 8)
          ∷ (id / 2 ^ 16 % 2 ^ 8)
          ∷ (id / 2 ^ 24 % 2 ^ 8)
          ∷ 0xFD
          ∷ [])
