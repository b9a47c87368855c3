-- ===== src/Markdown/Inside.antt =====
-- core/src/ui/markdown.cpp: the fragments of a text lie in it.
use fenestra_voli_edition.Base.{
  ℕ, zero, suc, ◌+◌, ◌-◌, ◌≤◌, ◌<◌, ◌≡◌, refl, ◌⊎◌, inl, inr, Bool, Bool-cases, true, false, ◌&&◌,
  List, [], ◌∷◌, ◌++◌, ◌==◌, if◌then◌else◌, length, arith,
}
use fenestra_voli_edition.Markdown.Tables.{Text}
use fenestra_voli_edition.Markdown.{Outcome, returned, terminated, out_of_fuel}
use fenestra_voli_edition.Markdown.Options.{Choice, format}
use fenestra_voli_edition.Markdown.Parse.{
  Options, format_start, parse_format, Fragment, fragment, choices, formatted, Parsed, after_format,
  after_inner, parse_inner, parse_markdown, is_escape_char,
}
use fenestra_voli_edition.Markdown.Total.{Ensures, bind-Ensures, IsAt, IsRead, parse_format-Ensures}

-- A fragment of a text of `n` characters, which is not empty.
abbrev pub IsInside : ℕ → Fragment → Type 0
IsInside n f = (0 < f.length_) × (f.start + f.length_ ≤ n)

abbrev pub AreInside : ℕ → List Fragment → Type 0
AreInside n [] = Unit {0}
AreInside n (f ∷ fs) = IsInside n f × AreInside n fs

AreInside-append :
    (n : ℕ) (fs gs : List Fragment) → AreInside n fs → AreInside n gs → AreInside n (fs ++ gs)
AreInside-append n [] gs h k = k
AreInside-append n (f ∷ fs) gs (p, h) k = (p, AreInside-append n fs gs h k)

AreInside-choices :
    (n start length_ : ℕ) (cs : List Choice)
    → 0 < length_
    → start + length_ ≤ n
    → AreInside n (choices start length_ cs)
unfolding choices
AreInside-choices n start length_ [] h k = tt
AreInside-choices n start length_ (c ∷ cs) h k = ((h, k), AreInside-choices n start length_ cs h k)

AreInside-formatted :
    (n start j k : ℕ) (options : List Choice) (inner : List Fragment)
    → start < j
    → j ≤ k
    → k < n
    → AreInside n inner
    → AreInside n (formatted start j k options inner)
AreInside-formatted n start j k options inner h l u a =
    let first : 0 < 1 × (start + 1 ≤ n) = (omega arith, omega (arith, h, l, u)) in
    let last : 0 < k + 1 - j × (j + (k + 1 - j) ≤ n) = (omega (arith, l), omega (arith, l, u)) in
    AreInside-append n (choices start (k + 1 - start) options)
      (fragment start 1 format ∷ (inner ++ fragment j (k + 1 - j) format ∷ []))
      (AreInside-choices n start (k + 1 - start) options (omega (arith, h, l))
        (omega (arith, h, l, u)))
      (first, AreInside-append n inner (fragment j (k + 1 - j) format ∷ []) a (last, tt))

abbrev IsParsed : ℕ → ℕ → Parsed → Type 0
IsParsed n room (fs, i, text) = IsAt n room i text × AreInside n fs

-- What the loop is to do on shorter texts.
abbrev GoesOn : ℕ → ℕ → (List Fragment → ℕ → Text → Outcome Parsed) → Type 0
GoesOn n room again =
    (result : List Fragment) (i : ℕ) (text : Text)
    → AreInside n result
    → IsAt n room i text
    → Ensures (IsParsed n room) (again result i text)

after_format-Ensures :
    (n room : ℕ) (again : List Fragment → ℕ → Text → Outcome Parsed) (result inner : List Fragment)
    (i j : ℕ) (ds : Text) (options : Options)
    → GoesOn n room again
    → AreInside n result
    → AreInside n inner
    → i < j
    → IsAt n room (j + 2) ds
    → IsRead n (length ds) options
    → Ensures (IsParsed n room) (after_format again result inner i j ds options)
unfolding after_format
after_format-Ensures n room again result inner i j ds (options, k, []) h r a l p q =
    h (result ++ inner) (j + 2) ds (AreInside-append n result inner r a) p
after_format-Ensures n room again result inner i j ds (options, k, y ∷ rest) h r a l p q =
    h (result ++ formatted i j k options inner) (k + 1) rest
      (AreInside-append n result (formatted i j k options inner) r
        (AreInside-formatted n i j k options inner l (omega (arith, p, q)) (omega (arith, q)) a))
      (omega (arith, q), omega (arith, p, q))

after_inner-Ensures :
    (n room : ℕ) (again : List Fragment → ℕ → Text → Outcome Parsed) (result : List Fragment)
    (i : ℕ) (inner : Parsed)
    → GoesOn n room again
    → AreInside n result
    → i + suc room ≡ n
    → IsParsed n room inner
    → Ensures (IsParsed n room) (after_inner again result i inner)
unfolding after_inner
after_inner-Ensures n room again result i (inner, j, []) h r e (p, a) =
    Ensures.gives (result ++ inner, j, []) (p, AreInside-append n result inner r a)
after_inner-Ensures n room again result i (inner, j, x ∷ []) h r e (p, a) =
    Ensures.gives (result ++ inner, j, x ∷ []) (p, AreInside-append n result inner r a)
after_inner-Ensures n room again result i (inner, j, x ∷ d ∷ ds) h r e (p, a) =
    let place : IsAt n room (j + 2) ds = (omega (arith, p), omega (arith, p)) in
    elim (Bool-cases (d == b'{')) [
      | inl s ↦ rw (s) (
          bind-Ensures (parse_format ds (j + 2) format_start)
            (after_format again result inner i j ds)
            (parse_format-Ensures ds (j + 2) format_start n (length ds) (place.0, omega arith))
            (λ options q.
              after_format-Ensures n room again result inner i j ds options h r a
                (omega (arith, p, e)) place q))
      | inr s ↦ rw (s) (h result (j + 2) ds r place)
    ]

weaken :
    (n room more : ℕ) (o : Outcome Parsed)
    → room ≤ more
    → Ensures (IsParsed n room) o
    → Ensures (IsParsed n more) o
weaken n room more (returned (fs, i, text)) h (Ensures.gives _ ((e, l), a)) =
    Ensures.gives (fs, i, text) ((e, omega (arith, h, l)), a)
weaken n room more terminated h e = Ensures.stops
weaken n room more out_of_fuel h e = elim e [ ]

if-Ensures :
    {A : Type 0} {P : A → Type 0} (b : Bool) (x y : Outcome A)
    → Ensures P x
    → Ensures P y
    → Ensures P (if b then x else y)
if-Ensures true x y h k = h
if-Ensures false x y h k = k

AreInside-escaped :
    (n i : ℕ) (b : Bool) (result : List Fragment)
    → i < n
    → AreInside n result
    → AreInside n (if b then result ++ fragment (i - 1) 1 format ∷ [] else result)
AreInside-escaped n i true result h r =
    AreInside-append n result (fragment (i - 1) 1 format ∷ []) r
      ((omega arith, omega (arith, h)), tt)
AreInside-escaped n i false result h r = r

parse_inner-Ensures :
    (fuel : ℕ) (level escape : Bool) (result : List Fragment) (i : ℕ) (text : Text) (n room : ℕ)
    → length text < fuel
    → AreInside n result
    → IsAt n room i text
    → Ensures (IsParsed n room) (parse_inner fuel level escape result i text)
unfolding parse_inner
parse_inner-Ensures zero level escape result i text n room h r p = absurd (omega (arith, h))
parse_inner-Ensures (suc fuel) level escape result i [] n room h r p =
    Ensures.gives (result, i, []) (p, r)
parse_inner-Ensures (suc fuel) level escape result i (c ∷ cs) n room h r p =
    let grown = AreInside-escaped n i (is_escape_char c) result (omega (arith, p)) r in
    let further : IsAt n room (i + 1) cs = (omega (arith, p), omega (arith, p)) in
    let below : IsAt n (length cs) (i + 1) cs = (omega (arith, p), omega arith) in
    let again : GoesOn n (length cs) (parse_inner fuel true false) = λ fs k text a q.
      parse_inner-Ensures fuel true false fs k text n (length cs) (omega (arith, q, h)) a q in
    if-Ensures escape _ _
      (parse_inner-Ensures fuel level false _ (i + 1) cs n room (omega (arith, h)) grown further)
      (if-Ensures (c == b'[') _ _
        (weaken n (length cs) room _ (omega (arith, p)) (
          bind-Ensures (parse_inner fuel true false [] (i + 1) cs)
            (after_inner (parse_inner fuel true false) result i)
            (parse_inner-Ensures fuel true false [] (i + 1) cs n (length cs) (omega (arith, h)) tt
              below)
            (λ inner q.
              after_inner-Ensures n (length cs) (parse_inner fuel true false) result i inner again r
                (omega (arith, p)) q)))
        (if-Ensures (c == b']' && level) _ _ (Ensures.gives (result, i, c ∷ cs) (p, r)) (
          parse_inner-Ensures fuel level (c == 0x5C) result (i + 1) cs n room (omega (arith, h)) r
            further)))

outcome :
    {A : Type 0} {P : A → Type 0} (o : Outcome A)
    → Ensures P o
    → (o ≡ terminated) ⊎ ((a : A) × (o ≡ returned a) × P a)
outcome (returned a) (Ensures.gives _ p) = inr (a, refl, p)
outcome terminated h = inl refl
outcome out_of_fuel h = elim h [ ]

-- The parser ends on every text, by an exception or with fragments that are not empty and lie in the text.
pub parse_markdown-AreInside :
    (text : Text)
    → (parse_markdown text ≡ terminated)
      ⊎ ((fs : List Fragment) × (parse_markdown text ≡ returned fs) × AreInside (length text) fs)
unfolding parse_markdown
parse_markdown-AreInside text =
    let o = parse_inner (length text + 1) false false [] 0 text in
    elim (outcome o (
      parse_inner-Ensures (length text + 1) false false [] 0 text (length text) (length text)
        (omega arith) tt (omega arith, omega arith))) [
          | inl e ↦ inl (rw (e) refl)
          | inr ((fs, i, rest), e, (p, a)) ↦ inr (fs, rw (e) refl, a)
        ]
