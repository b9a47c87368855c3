-- ===== src/Markdown/Parse.antt =====
-- core/src/ui/markdown.cpp: `parse_format`, `parse_inner` and `parse_markdown`.
use fenestra_voli_edition.Base.{
  ℕ, zero, suc, ◌+◌, ◌-◌, Bool, true, false, not, ◌&&◌, ◌||◌, List, [], ◌∷◌, ◌++◌, ◌==◌, within,
  if◌then◌else◌, length,
}
use fenestra_voli_edition.Markdown.Tables.{Text}
use fenestra_voli_edition.Markdown.{Outcome, returned, out_of_fuel, ◌>>=◌, is_empty}
use fenestra_voli_edition.Markdown.Options.{Choice, format, add_option}

-- The variables of `parse_format`.
pub record FormatState : Type 0 where
  pub result : List Choice
  pub quote : Bool
  pub escape : Bool
  pub key : Text
  pub value : Text

abbrev pub format_start : FormatState
format_start = record { result = []; quote = false; escape = false; key = []; value = [] }

-- The end of an option; the format ends, too, at a brace.
pub data Step : Type 0 where
  next : FormatState → Step
  ends : List Choice → Step

-- Behind an option, which is ended by a space or a brace.
unfoldable pub end_option : ℕ → FormatState → List Choice → Outcome Step
end_option c s result =
    if c == b'}'
    then returned (ends result)
    else returned (next (record s { result = result; key = []; value = [] }))

unfoldable pub format_char : ℕ → FormatState → Outcome Step
format_char c s =
    if s.escape
    then returned (next (record s { value = s.value ++ c ∷ []; escape = false }))
    else if c == 0x5C
    then returned (next (record s { escape = true }))
    else if c == 0x22
    then returned (next (record s { quote = not s.quote }))
    else if (c == b' ' || c == b'}') && not s.quote
    then (if is_empty s.value
        then returned (next s)
        else (add_option s.result s.key s.value >>= end_option c s))
    else if c == b':'
    then returned (next (record s { key = s.value; value = [] }))
    else returned (next (record s { value = s.value ++ c ∷ [] }))

abbrev pub Options : Type 0
Options = List Choice × ℕ × Text

unfoldable pub after_char : (FormatState → Outcome Options) → ℕ → Text → Step → Outcome Options
after_char again i text (next s) = again s
after_char again i text (ends result) = returned (result, i, text)

-- The options, the index that the loop ends at, and what stands from there on.
unfoldable pub parse_format : Text → ℕ → FormatState → Outcome Options
parse_format [] i s = returned ([], i, [])
parse_format (c ∷ cs) i s = format_char c s >>= after_char (parse_format cs (i + 1)) i (c ∷ cs)

pub record Fragment : Type 0 where
  pub start : ℕ
  pub length_ : ℕ
  pub choice : Choice

abbrev pub fragment : ℕ → ℕ → Choice → Fragment
fragment start length_ choice = record { start = start; length_ = length_; choice = choice }

-- `escape_chars`: the marks of ASCII.
abbrev pub is_escape_char : ℕ → Bool
is_escape_char c =
    within 0x21 0x2F c || within 0x3A 0x40 c || within 0x5B 0x60 c || within 0x7B 0x7E c

unfoldable pub choices : ℕ → ℕ → List Choice → List Fragment
choices start length_ [] = []
choices start length_ (c ∷ cs) = fragment start length_ c ∷ choices start length_ cs

-- The fragments of a formatted text from `start` on, whose inner text ends at `j`, and its format at `k`.
abbrev pub formatted : ℕ → ℕ → ℕ → List Choice → List Fragment → List Fragment
formatted start j k options inner =
    choices start (k + 1 - start) options
    ++ (fragment start 1 format ∷ (inner ++ fragment j (k + 1 - j) format ∷ []))

abbrev pub Parsed : Type 0
Parsed = List Fragment × ℕ × Text

-- Behind `parse_format`; `again` goes on with the loop. A format with no end is taken for text.
unfoldable pub after_format :
    (List Fragment → ℕ → Text → Outcome Parsed)
    → List Fragment
    → List Fragment
    → ℕ
    → ℕ
    → Text
    → Options
    → Outcome Parsed
after_format again result inner i j ds (options, k, []) = again (result ++ inner) (j + 2) ds
after_format again result inner i j ds (options, k, y ∷ rest) =
    again (result ++ formatted i j k options inner) (k + 1) rest

-- Behind the inner text of a bracket at `i`.
unfoldable pub after_inner :
    (List Fragment → ℕ → Text → Outcome Parsed) → List Fragment → ℕ → Parsed → Outcome Parsed
after_inner again result i (inner, j, []) = returned (result ++ inner, j, [])
after_inner again result i (inner, j, x ∷ []) = returned (result ++ inner, j, x ∷ [])
after_inner again result i (inner, j, x ∷ d ∷ ds) =
    if not (d == b'{')
    then again result (j + 2) ds
    else (parse_format ds (j + 2) format_start >>= after_format again result inner i j ds)

-- The loop of `parse_inner`: whether the level is above zero, the variables, the index and what stands
-- from there on.
unfoldable pub parse_inner : ℕ → Bool → Bool → List Fragment → ℕ → Text → Outcome Parsed
parse_inner zero level escape result i text = out_of_fuel
parse_inner (suc fuel) level escape result i [] = returned (result, i, [])
parse_inner (suc fuel) level escape result i (c ∷ cs) =
    let escaped =
      parse_inner fuel level false
        (if is_escape_char c then result ++ fragment (i - 1) 1 format ∷ [] else result) (i + 1)
        cs in
    let plain = parse_inner fuel level (c == 0x5C) result (i + 1) cs in
    let nested =
      parse_inner fuel true false [] (i + 1) cs
      >>= after_inner (parse_inner fuel true false) result i in
    if escape
    then escaped
    else if c == b'['
    then nested
    else if c == b']' && level
    then returned (result, i, c ∷ cs)
    else plain

abbrev pub fragments : Parsed → Outcome (List Fragment)
fragments (fs, i, rest) = returned fs

-- Each round takes a character.
unfoldable pub parse_markdown : Text → Outcome (List Fragment)
parse_markdown text = parse_inner (length text + 1) false false [] 0 text >>= fragments
