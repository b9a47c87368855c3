-- ===== src/Markdown/Options.antt =====
-- core/src/ui/markdown.cpp: the options of a format, with and without a key.
use fenestra_voli_edition.Base.{
  Bool, true, Option, none, some, List, [], ◌∷◌, ◌++◌, ◌==◌, if◌then◌else◌,
}
use fenestra_voli_edition.Base.Order.{same_text}
use fenestra_voli_edition.Markdown.Tables.{
  Text, codes, FontStretch, FontWeight, FontStyle, stretch_values, weight_values, style_values,
  size_values, color_values,
}
use fenestra_voli_edition.Markdown.{
  Outcome, returned, ◌>>=◌, view, c_str, lookup, has_text, FontSize, Color, parse_size, parse_color,
  is_empty,
}

-- `option`
pub data Choice : Type 0 where
  format : Choice
  typeface : Text → Choice
  font_size : FontSize → Choice
  stretch : FontStretch → Choice
  weight : FontWeight → Choice
  style : FontStyle → Choice
  strikethrough underline : Bool → Choice
  color : Color → Choice
  stroke : Option FontSize → Option Color → Choice

abbrev pub map_choice : {A : Type 0} → (A → Choice) → Option A → Option Choice
map_choice f none = none
map_choice f (some a) = some (f a)

-- What stands in front of the first space, and what stands behind it.
unfoldable pub split_space : Text → Text × Option Text
split_space [] = ([], none)
split_space (c ∷ cs) =
    let (front, rest) = split_space cs in if c == b' ' then ([], some cs) else (c ∷ front, rest)

abbrev pub stroke_of : Option FontSize → Option Color → Option Choice
stroke_of none none = none
stroke_of size color_ = some (stroke size color_)

-- The size is a view that ends in front of the space, but not in memory.
unfoldable pub stroke_parts : Text → Text × Option Text → Outcome (Option Choice)
stroke_parts value (front, none) =
    parse_color (view value) >>= λ c. returned (stroke_of (parse_size (view value)) c)
stroke_parts value (front, some behind) = parse_color (view behind) >>= λ c.
    returned (stroke_of (parse_size (record { chars = front; behind = b' ' ∷ behind })) c)

unfoldable pub parse_stroke : Text → Outcome (Option Choice)
parse_stroke value = stroke_parts value (split_space value)

unfoldable pub parse_keyed : Text → Text → Outcome (Option Choice)
parse_keyed key value =
    let is = λ (name : Text). same_text key name in
    if is (codes "typeface")
    then returned (some (typeface value))
    else if is (codes "size")
    then returned (map_choice font_size (parse_size (view value)))
    else if is (codes "stretch")
    then returned (map_choice stretch (lookup stretch_values (view value)))
    else if is (codes "weight")
    then returned (map_choice weight (lookup weight_values (view value)))
    else if is (codes "style")
    then returned (map_choice style (lookup style_values (view value)))
    else if is (codes "color")
    then (parse_color (view value) >>= λ c. returned (map_choice color c))
    else if is (codes "underline")
    then returned (some (underline (same_text value (codes "true"))))
    else if is (codes "strikethrough")
    then returned (some (strikethrough (same_text value (codes "true"))))
    else if is (codes "stroke")
    then parse_stroke value
    else returned none

-- `find_duplicates`: the names that stand in a table and in one in front of it.
abbrev names : {A : Type 0} → List (Text × A) → List Text
names [] = []
names ((k, a) ∷ rows) = k ∷ names rows

unfoldable pub repeated : List Text → List Text → List Text
repeated [] control = []
repeated (k ∷ ks) control =
    let rest = repeated ks control in if has_text k control then k ∷ rest else rest

abbrev pub find_duplicates : List Text
find_duplicates =
    let one = names stretch_values in
    let two = names weight_values ++ one in
    let three = names style_values ++ two in
    let four = color_values ++ three in
    repeated (names weight_values) one
    ++ (repeated (names style_values) two
        ++ (repeated color_values three ++ repeated (names size_values) four))

unfoldable pub or_next : Option Choice → Outcome (Option Choice) → Outcome (Option Choice)
or_next none rest = rest
or_next (some c) rest = returned (some c)

-- `parse_option` without a key: what the value may be, in this order.
unfoldable pub parse_unkeyed : Text → Outcome (Option Choice)
parse_unkeyed value =
    let v = view value in
    let last =
      if same_text value (codes "underline")
      then underline true
      else if same_text value (codes "strikethrough")
      then strikethrough true
      else typeface (c_str v) in
    let or_color = parse_color v >>= λ c.
    or_next (map_choice color c)
      (or_next (map_choice stretch (lookup stretch_values v)) (returned (some last))) in
    if has_text value find_duplicates
    then returned none
    else or_next (map_choice style (lookup style_values v)) (
        or_next (map_choice weight (lookup weight_values v))
          (or_next (map_choice font_size (parse_size v)) or_color))

abbrev pub push : List Choice → Option Choice → List Choice
push result none = result
push result (some c) = result ++ c ∷ []

unfoldable pub add_option : List Choice → Text → Text → Outcome (List Choice)
add_option result key value =
    (if is_empty key then parse_unkeyed value else parse_keyed key value) >>= λ c.
    returned (push result c)
