-- ===== src/Markdown/Quoted.antt =====
-- core/src/ui/markdown.cpp: options that are written with quotes and backslashes are read back.
use fenestra_voli_edition.Base.{
  ℕ, ◌+◌, ◌*◌, ◌≡◌, refl, sym, ap, ◌∙◌, Bool, true, false, not, ◌&&◌, List, [], ◌∷◌, ◌++◌, ◌==◌,
  length, length-append, arith,
}
use mathlib.Core.List.{append_assoc, append-nil}
use fenestra_voli_edition.Markdown.Tables.{Text}
use fenestra_voli_edition.Markdown.{Outcome, returned, terminated, out_of_fuel, ◌>>=◌, is_empty}
use fenestra_voli_edition.Markdown.Options.{Choice, add_option}
use fenestra_voli_edition.Markdown.Parse.{
  FormatState, format_start, next, end_option, format_char, Options, after_char, parse_format,
}

-- A character that has no meaning of its own.
abbrev is_plain : ℕ → Bool
is_plain c =
    not (c == 0x5C) && not (c == 0x22) && not (c == b' ') && not (c == b'}') && not (c == b':')

abbrev pub IsPlain : Text → Type 0
IsPlain [] = Unit {0}
IsPlain (c ∷ cs) = (is_plain c ≡ true) × IsPlain cs

-- Each character behind a backslash.
abbrev pub escaped : Text → Text → Text
escaped [] rest = rest
escaped (c ∷ cs) rest = 0x5C ∷ c ∷ escaped cs rest

-- A key and a value in quotes.
abbrev pub print_option : Text → Text → Text → Text
print_option key value rest = key ++ b':' ∷ 0x22 ∷ escaped value (0x22 ∷ rest)

one_step :
    (c : ℕ) (cs : Text) (i : ℕ) (s t : FormatState)
    → format_char c s ≡ returned (next t)
    → parse_format (c ∷ cs) i s ≡ parse_format cs (i + 1) t
unfolding parse_format after_char
one_step c cs i s t h = rw (h) refl

-- Between the characters of an option.
abbrev reading : List Choice → Bool → Text → Text → FormatState
reading result quote key value = record {
  result = result;
  quote = quote;
  escape = false;
  key = key;
  value = value;
}

read_plain :
    (key cs : Text) (i : ℕ) (result : List Choice) (value : Text)
    → IsPlain key
    → parse_format (key ++ cs) i (reading result false [] value)
      ≡ parse_format cs (i + length key) (reading result false [] (value ++ key))
unfolding format_char
read_plain [] cs i result value h =
    rw (append-nil value)
      (ap (λ k. parse_format cs k (reading result false [] value)) (omega arith))
read_plain (c ∷ key) cs i result value (p, h) =
    one_step c (key ++ cs) i (reading result false [] value)
      (reading result false [] (value ++ c ∷ [])) (ground (arith, p))
    ∙ read_plain key cs (i + 1) result (value ++ c ∷ []) h
    ∙ rw (append_assoc value (c ∷ []) key)
        (ap (λ k. parse_format cs k (reading result false [] (value ++ c ∷ key))) (omega arith))

read_escaped :
    (text cs : Text) (i : ℕ) (result : List Choice) (key value : Text)
    → parse_format (escaped text cs) i (reading result true key value)
      ≡ parse_format cs (i + 2 * length text) (reading result true key (value ++ text))
unfolding format_char
read_escaped [] cs i result key value =
    rw (append-nil value)
      (ap (λ k. parse_format cs k (reading result true key value)) (omega arith))
read_escaped (c ∷ text) cs i result key value =
    let after = record (reading result true key value) { escape = true } in
    one_step 0x5C (c ∷ escaped text cs) i (reading result true key value) after refl
    ∙ one_step c (escaped text cs) (i + 1) after (reading result true key (value ++ c ∷ [])) refl
    ∙ read_escaped text cs (i + 1 + 1) result key (value ++ c ∷ [])
    ∙ rw (append_assoc value (c ∷ []) text)
        (ap (λ k. parse_format cs k (reading result true key (value ++ c ∷ text))) (omega arith))

-- The length of an option.
abbrev option_size : Text → Text → ℕ
option_size key value = length key + 2 + 2 * length value + 1

read_option :
    (key value rest : Text) (i : ℕ) (result : List Choice)
    → IsPlain key
    → parse_format (print_option key value rest) i (reading result false [] [])
      ≡ parse_format rest (i + option_size key value) (reading result false key value)
unfolding format_char
read_option key value rest i result h =
    read_plain key (b':' ∷ 0x22 ∷ escaped value (0x22 ∷ rest)) i result [] h
    ∙ one_step b':' (0x22 ∷ escaped value (0x22 ∷ rest)) (i + length key)
        (reading result false [] key) (reading result false key []) refl
    ∙ one_step 0x22 (escaped value (0x22 ∷ rest)) (i + length key + 1) (reading result false key [])
        (reading result true key []) refl
    ∙ read_escaped value (0x22 ∷ rest) (i + length key + 1 + 1) result key []
    ∙ one_step 0x22 rest (i + length key + 1 + 1 + 2 * length value) (reading result true key value)
        (reading result false key value) refl
    ∙ ap (λ k. parse_format rest k (reading result false key value)) (omega arith)

at_brace :
    (o : Outcome (List Choice)) (s : FormatState) (again : FormatState → Outcome Options) (i : ℕ)
    (text : Text)
    → (o >>= end_option b'}' s) >>= after_char again i text ≡ o >>= λ r. returned (r, i, text)
unfolding end_option after_char
at_brace (returned r) s again i text = refl
at_brace terminated s again i text = refl
at_brace out_of_fuel s again i text = refl

at_space :
    (o : Outcome (List Choice)) (result : List Choice) (key value : Text)
    (again : FormatState → Outcome Options) (i : ℕ) (text : Text)
    → (o >>= end_option b' ' (reading result false key value)) >>= after_char again i text
      ≡ o >>= λ r. again (reading r false [] [])
unfolding end_option after_char
at_space (returned r) result key value again i text = refl
at_space terminated result key value again i text = refl
at_space out_of_fuel result key value again i text = refl

-- Options behind each other, up to the brace.
unfoldable pub print_format : Text → Text → List (Text × Text) → Text → Text
print_format key value [] rest = print_option key value (b'}' ∷ rest)
print_format key value ((k, v) ∷ os) rest = print_option key value (b' ' ∷ print_format k v os rest)

unfoldable pub add_options : List Choice → Text → Text → List (Text × Text) → Outcome (List Choice)
add_options result key value [] = add_option result key value
add_options result key value ((k, v) ∷ os) =
    add_option result key value >>= λ r. add_options r k v os

abbrev pub ArePlain : Text → Text → List (Text × Text) → Type 0
ArePlain key value [] = IsPlain key × (is_empty value ≡ false)
ArePlain key value ((k, v) ∷ os) = IsPlain key × (is_empty value ≡ false) × ArePlain k v os

abbrev format_size : Text → Text → List (Text × Text) → ℕ
format_size key value [] = option_size key value
format_size key value ((k, v) ∷ os) = option_size key value + 1 + format_size k v os

bind_assoc :
    {A B C : Type 0} (o : Outcome A) (f : A → Outcome B) (g : B → Outcome C)
    → (o >>= f) >>= g ≡ o >>= λ a. f a >>= g
bind_assoc (returned a) f g = refl
bind_assoc terminated f g = refl
bind_assoc out_of_fuel f g = refl

bind_cong :
    {A B : Type 0} (o : Outcome A) (f g : A → Outcome B) → ((a : A) → f a ≡ g a) → o >>= f ≡ o >>= g
bind_cong (returned a) f g h = h a
bind_cong terminated f g h = refl
bind_cong out_of_fuel f g h = refl

abbrev done : Text → ℕ → List Choice → Outcome Options
done rest k result = returned (result, k, b'}' ∷ rest)

read_format :
    (key value : Text) (os : List (Text × Text)) (rest : Text) (i : ℕ) (result : List Choice)
    → ArePlain key value os
    → parse_format (print_format key value os rest) i (reading result false [] [])
      ≡ add_options result key value os >>= λ r.
          returned (r, i + format_size key value os, b'}' ∷ rest)
unfolding print_format add_options parse_format format_char
read_format key value [] rest i result (h, k) =
    read_option key value (b'}' ∷ rest) i result h
    ∙ rw (k) (
        at_brace (add_option result key value) (reading result false key value)
          (parse_format rest (i + option_size key value + 1)) (i + option_size key value)
          (b'}' ∷ rest))
read_format key value ((k1, v1) ∷ os) rest i result (h, k, more) =
    let o = add_option result key value in
    let text = print_format k1 v1 os rest in
    let j = i + option_size key value in
    read_option key value (b' ' ∷ text) i result h
    ∙ rw (k) (at_space o result key value (parse_format text (j + 1)) j (b' ' ∷ text))
    ∙ bind_cong o (λ r. parse_format text (j + 1) (reading r false [] []))
        (λ r. add_options r k1 v1 os >>= done rest (j + 1 + format_size k1 v1 os))
        (λ r. read_format k1 v1 os rest (j + 1) r more)
    ∙ sym (bind_assoc o (λ r. add_options r k1 v1 os) (done rest (j + 1 + format_size k1 v1 os)))
    ∙ ap (λ n. (o >>= λ r. add_options r k1 v1 os) >>= done rest n) (omega arith)

length-escaped : (value rest : Text) → length (escaped value rest) ≡ 2 * length value + length rest
length-escaped [] rest = omega arith
length-escaped (c ∷ cs) rest = omega (arith, length-escaped cs rest)

length-print_option :
    (key value rest : Text)
    → length (print_option key value rest) ≡ option_size key value + length rest
length-print_option key value rest = omega (
  arith,
  length-append {0} key (b':' ∷ 0x22 ∷ escaped value (0x22 ∷ rest)),
  length-escaped value (0x22 ∷ rest),
)

length-print_format :
    (key value : Text) (os : List (Text × Text)) (rest : Text)
    → length (print_format key value os rest) ≡ format_size key value os + 1 + length rest
unfolding print_format
length-print_format key value [] rest = omega (arith, length-print_option key value (b'}' ∷ rest))
length-print_format key value ((k, v) ∷ os) rest = omega (
  arith,
  length-print_option key value (b' ' ∷ print_format k v os rest),
  length-print_format k v os rest,
)

-- Options that are written with plain keys, and values that are not empty, in quotes with a backslash in
-- front of each character, are read back up to the brace, in their order and whatever stands behind it. The
-- index is that of the brace.
pub parse_format-print_format :
    (key value : Text) (os : List (Text × Text)) (rest : Text) (i : ℕ)
    → ArePlain key value os
    → (k : ℕ) × (parse_format (print_format key value os rest) i format_start
        ≡ add_options [] key value os >>= λ r. returned (r, k, b'}' ∷ rest))
      × (k + 1 + length rest ≡ i + length (print_format key value os rest))
parse_format-print_format key value os rest i h = (
  i + format_size key value os,
  read_format key value os rest i [] h,
  omega (arith, length-print_format key value os rest),
)
