-- ===== src/Markdown/Total.antt =====
-- core/src/ui/markdown.cpp: the parser ends, and its fragments lie in the text.
use fenestra_voli_edition.Base.{
  ℕ, ◌+◌, ◌≤◌, ◌≡◌, Bool, true, false, Option, none, some, List, [], ◌∷◌, ◌==◌, if◌then◌else◌,
  length, arith,
}
use fenestra_voli_edition.Markdown.Tables.{Text}
use fenestra_voli_edition.Markdown.{
  Outcome, returned, terminated, out_of_fuel, ◌>>=◌, parse_color, is_empty, View, view,
}
use fenestra_voli_edition.Markdown.Options.{
  Choice, color, parse_stroke, stroke_parts, parse_keyed, parse_unkeyed, add_option, or_next,
  split_space, map_choice,
}
use fenestra_voli_edition.Markdown.Parse.{
  Step, next, ends, Options, after_char, FormatState, format_char, end_option, parse_format,
}

-- No round is missing.
data Ended {A : Type 0} : Outcome A → Type 0 where
  by_return : (a : A) → Ended (returned a)
  by_end : Ended terminated

bind-Ended :
    {A B : Type 0} (o : Outcome A) (f : A → Outcome B)
    → Ended o
    → ((a : A) → Ended (f a))
    → Ended (o >>= f)
bind-Ended (returned a) f h k = k a
bind-Ended terminated f h k = by_end
bind-Ended out_of_fuel f h k = elim h [ ]

if-Ended :
    {A : Type 0} (b : Bool) (x y : Outcome A) → Ended x → Ended y → Ended (if b then x else y)
if-Ended true x y h k = h
if-Ended false x y h k = k

chars-Ended :
    (chars behind : Text) → Ended (parse_color (record { chars = chars; behind = behind }))
unfolding parse_color
chars-Ended [] behind = by_end
chars-Ended (c ∷ cs) behind = by_return _

parse_color-Ended : (v : View) → Ended (parse_color v)
parse_color-Ended v = chars-Ended v.chars v.behind

stroke_parts-Ended : (value : Text) (parts : Text × Option Text) → Ended (stroke_parts value parts)
unfolding stroke_parts
stroke_parts-Ended value (front, none) =
    bind-Ended (parse_color (view value)) _ (parse_color-Ended (view value)) (λ c. by_return _)
stroke_parts-Ended value (front, some behind) =
    bind-Ended (parse_color (view behind)) _ (parse_color-Ended (view behind)) (λ c. by_return _)

or_next-Ended : (o : Option Choice) (r : Outcome (Option Choice)) → Ended r → Ended (or_next o r)
unfolding or_next
or_next-Ended none r h = h
or_next-Ended (some c) r h = by_return _

parse_keyed-Ended : (key value : Text) → Ended (parse_keyed key value)
unfolding parse_keyed parse_stroke
parse_keyed-Ended key value =
    let at_color =
      bind-Ended (parse_color (view value)) (λ c. returned (map_choice color c))
        (parse_color-Ended (view value)) (λ c. by_return _) in
    let at_stroke = stroke_parts-Ended value (split_space value) in
    search (if-Ended, by_return, at_color, at_stroke) depth 14

parse_unkeyed-Ended : (value : Text) → Ended (parse_unkeyed value)
unfolding parse_unkeyed
parse_unkeyed-Ended value =
    let v = view value in
    if-Ended _ _ _ (by_return _) (
      or_next-Ended _ _ (
        or_next-Ended _ _ (
          or_next-Ended _ _ (
            bind-Ended (parse_color v) _ (parse_color-Ended v)
              (λ c. or_next-Ended (map_choice color c) _ (or_next-Ended _ _ (by_return _)))))))

add_option-Ended : (result : List Choice) (key value : Text) → Ended (add_option result key value)
unfolding add_option
add_option-Ended result key value =
    bind-Ended _ _
      (if-Ended (is_empty key) _ _ (parse_unkeyed-Ended value) (parse_keyed-Ended key value))
      (λ c. by_return _)

end_option-Ended : (c : ℕ) (s : FormatState) (result : List Choice) → Ended (end_option c s result)
unfolding end_option
end_option-Ended c s result = if-Ended (c == b'}') _ _ (by_return _) (by_return _)

format_char-Ended : (c : ℕ) (s : FormatState) → Ended (format_char c s)
unfolding format_char
format_char-Ended c s =
    let at_end =
      bind-Ended (add_option s.result s.key s.value) (end_option c s)
        (add_option-Ended s.result s.key s.value) (end_option-Ended c s) in
    search (if-Ended, by_return, at_end) depth 12

-- A call that returns gives what has the property; no round is missing.
pub data Ensures {A : Type 0} (P : A → Type 0) : Outcome A → Type 0 where
  gives : (a : A) → P a → Ensures P (returned a)
  stops : Ensures P terminated

pub bind-Ensures :
    {A B : Type 0} {P : A → Type 0} {Q : B → Type 0} (o : Outcome A) (f : A → Outcome B)
    → Ensures P o
    → ((a : A) → P a → Ensures Q (f a))
    → Ensures Q (o >>= f)
bind-Ensures (returned a) f (Ensures.gives _ p) k = k a p
bind-Ensures terminated f h k = Ensures.stops
bind-Ensures out_of_fuel f h k = elim h [ ]

Ended-Ensures : {A : Type 0} (o : Outcome A) → Ended o → Ensures (λ a. Unit {0}) o
Ended-Ensures (returned a) h = Ensures.gives a tt
Ended-Ensures terminated h = Ensures.stops
Ended-Ensures out_of_fuel h = elim h [ ]

-- The index and the text from it on are at one place of a text of `n` characters.
abbrev pub IsAt : ℕ → ℕ → ℕ → Text → Type 0
IsAt n room i text = (i + length text ≡ n) × (length text ≤ room)

abbrev pub IsRead : ℕ → ℕ → Options → Type 0
IsRead n room (result, i, text) = IsAt n room i text

after_char-Ensures :
    (again : FormatState → Outcome Options) (n room i : ℕ) (text : Text) (step : Step)
    → ((s : FormatState) → Ensures (IsRead n room) (again s))
    → IsAt n room i text
    → Ensures (IsRead n room) (after_char again i text step)
unfolding after_char
after_char-Ensures again n room i text (next s) h p = h s
after_char-Ensures again n room i text (ends result) h p = Ensures.gives (result, i, text) p

pub parse_format-Ensures :
    (text : Text) (i : ℕ) (s : FormatState) (n room : ℕ)
    → IsAt n room i text
    → Ensures (IsRead n room) (parse_format text i s)
unfolding parse_format
parse_format-Ensures [] i s n room p = Ensures.gives ([], i, []) p
parse_format-Ensures (c ∷ cs) i s n room p =
    bind-Ensures (format_char c s) (after_char (parse_format cs (i + 1)) i (c ∷ cs))
      (Ended-Ensures (format_char c s) (format_char-Ended c s))
      (λ step u.
        after_char-Ensures (parse_format cs (i + 1)) n room i (c ∷ cs) step
          (λ s'. parse_format-Ensures cs (i + 1) s' n room (omega (arith, p), omega (arith, p))) p)
