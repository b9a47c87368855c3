-- ===== src/Commands/Names.antt =====
-- core/src/command_manager.cpp: `name_chars`, `is_valid_name` and `check_name`.
use fenestra_voli_edition.Base.{
  ℕ, zero, suc, ◌+◌, ◌≤◌, ◌<◌, ◌≡◌, ◌↔◌, refl, Bool, true, false, ◌||◌, Option, none, some, [], ◌∷◌,
  arith, ltb, ◌==◌, within, if◌then◌else◌, length, ltb→lt, ap, ◌∙◌, ◌++◌, Bool-cases, inl, inr,
  Option-cases,
}
use native.Mathlib.Nat.{zero-add}
use fenestra_voli_edition.Unicode.{Bytes}

-- "abcdefghijklmnopqrstuvwxyz" "ABCDEFGHIJKLMNOPQRSTUVWXYZ" "0123456789?_-"
abbrev name_chars : Bytes
name_chars =
    0x61 ∷ 0x62 ∷ 0x63 ∷ 0x64 ∷ 0x65 ∷ 0x66 ∷ 0x67 ∷ 0x68 ∷ 0x69 ∷ 0x6A ∷ 0x6B ∷ 0x6C ∷ 0x6D ∷ 0x6E
    ∷ 0x6F ∷ 0x70 ∷ 0x71 ∷ 0x72 ∷ 0x73 ∷ 0x74 ∷ 0x75 ∷ 0x76 ∷ 0x77 ∷ 0x78 ∷ 0x79 ∷ 0x7A ∷ 0x41
    ∷ 0x42 ∷ 0x43 ∷ 0x44 ∷ 0x45 ∷ 0x46 ∷ 0x47 ∷ 0x48 ∷ 0x49 ∷ 0x4A ∷ 0x4B ∷ 0x4C ∷ 0x4D ∷ 0x4E
    ∷ 0x4F ∷ 0x50 ∷ 0x51 ∷ 0x52 ∷ 0x53 ∷ 0x54 ∷ 0x55 ∷ 0x56 ∷ 0x57 ∷ 0x58 ∷ 0x59 ∷ 0x5A ∷ 0x30
    ∷ 0x31 ∷ 0x32 ∷ 0x33 ∷ 0x34 ∷ 0x35 ∷ 0x36 ∷ 0x37 ∷ 0x38 ∷ 0x39 ∷ b'?' ∷ b'_' ∷ b'-' ∷ []

contains : Bytes → ℕ → Bool
contains [] c = false
contains (x ∷ xs) c = x == c || contains xs c

-- `string.find_first_not_of(name_chars)`; `none` is `npos`.
unfoldable pub find_first_not_of : Bytes → Bytes → ℕ → Option ℕ
unfolding contains
find_first_not_of chars [] offset = none
find_first_not_of chars (c ∷ cs) offset =
    let rest = find_first_not_of chars cs (offset + 1) in
    if contains chars c then rest else some offset

-- The source compares with `npos` by `!=`.
unfoldable pub is_valid_name : Bytes → Bool
is_valid_name name = elim (find_first_not_of name_chars name 0) [ none ↦ false | some _ ↦ true ]

-- `none` where no exception is thrown, else the offset in the exception.
unfoldable pub check_name : Bytes → Option ℕ
check_name name = find_first_not_of name_chars name 0

-- The characters of a name, as the `switch` of `parse_command` lists them.
unfoldable pub is_name_char : ℕ → Bool
is_name_char c =
    within b'a' b'z' c
    || within b'A' b'Z' c
    || within b'0' b'9' c
    || c == b'?'
    || c == b'_'
    || c == b'-'

abbrev pub IsName : Bytes → Type 0
IsName [] = Unit {0}
IsName (c ∷ cs) = (is_name_char c ≡ true) × IsName cs

-- Do two tests agree on the numbers under a bound?
agree_under : (f g : ℕ → Bool) → ℕ → Bool
agree_under f g zero = true
agree_under f g (suc bound) =
    let under = agree_under f g bound in
    if f bound then (if g bound then under else false) else (if g bound then false else under)

agree_at :
    (f g : ℕ → Bool) (bound : ℕ) {c : ℕ} → agree_under f g bound ≡ true → c < bound → f c ≡ g c
unfolding agree_under
agree_at f g zero e under = elim under [ ]
agree_at f g (suc bound) {c} e under = ground (arith, agree_at f g bound {c = c})

AllBelow : ℕ → Bytes → Type 0
AllBelow n [] = Unit
AllBelow n (x ∷ xs) = (x < n) × AllBelow n xs

contains_above : (n : ℕ) (xs : Bytes) (c : ℕ) → AllBelow n xs → n ≤ c → contains xs c ≡ false
unfolding contains AllBelow
contains_above n [] c h le = refl
contains_above n (x ∷ xs) c h le = ground (arith, contains_above n xs c h.1 le)

name_chars_table : agree_under (contains name_chars) is_name_char 128 ≡ true
unfolding agree_under contains is_name_char
name_chars_table = refl

name_chars_below : AllBelow 128 name_chars
unfolding AllBelow
name_chars_below = omega arith

pub is_name_char_below : (c : ℕ) → is_name_char c ≡ true → c < 128
unfolding is_name_char
is_name_char_below c h = ground arith

-- The string and the `switch` name the same characters.
contains-name_chars : (c : ℕ) → contains name_chars c ≡ is_name_char c
contains-name_chars c = elim (Bool-cases (ltb c 128)) [
  | inl ascii ↦
      agree_at (contains name_chars) is_name_char 128 name_chars_table (ltb→lt c 128 ascii)
  | inr beyond ↦
      ground (arith, contains_above 128 name_chars c name_chars_below, is_name_char_below c)
]

find-IsName : (s : Bytes) (o : ℕ) → (find_first_not_of name_chars s o ≡ none) ↔ IsName s
unfolding find_first_not_of
find-IsName [] o = ((λ e. tt), (λ h. refl))
find-IsName (c ∷ cs) o = (
  ground (arith, contains-name_chars c, (find-IsName cs (o + 1)).0),
  ground (arith, contains-name_chars c, (find-IsName cs (o + 1)).1),
)

find_after :
    (pre post : Bytes) (c o : ℕ)
    → IsName pre
    → is_name_char c ≡ false
    → find_first_not_of name_chars (pre ++ c ∷ post) o ≡ some (o + length pre)
unfolding find_first_not_of
find_after [] post c o h bad = ground (arith, contains-name_chars c)
find_after (x ∷ pre) post c o h bad =
    ground (arith, contains-name_chars x, find_after pre post c (o + 1) h.1 bad)

-- `check_name` accepts exactly the names.
pub check_name-IsName : (s : Bytes) → (check_name s ≡ none) ↔ IsName s
unfolding check_name
check_name-IsName s = find-IsName s 0

-- It reports the offset of the first character that is none.
pub check_name_offset :
    (pre post : Bytes) (c : ℕ)
    → IsName pre
    → is_name_char c ≡ false
    → check_name (pre ++ c ∷ post) ≡ some (length pre)
unfolding check_name
check_name_offset pre post c h bad = find_after pre post c 0 h bad ∙ ap some (zero-add (length pre))

-- `is_valid_name` says the opposite of what it is named for: it accepts exactly what is no name.
pub is_valid_name_inverted : (s : Bytes) → (is_valid_name s ≡ true) ↔ (¬ IsName s)
unfolding is_valid_name
is_valid_name_inverted s = elim (Option-cases (find_first_not_of name_chars s 0)) [
  | inl e ↦ (rw (e, is_valid_name) (λ f. cc), λ n. absurd (n ((find-IsName s 0).0 e)))
  | inr (i, e) ↦ (λ _ h. ground (arith, (find-IsName s 0).1 h), λ _. rw (e, is_valid_name))
]
