-- ===== src/Markdown/Tables.antt =====
-- core/src/ui/markdown.cpp: the names that options are looked up by, in sorted tables.
use Prim.Native.Char.{code}
use Prim.Native.String.{String}
use fenestra_voli_edition.Base.{ℕ, List, [], ◌∷◌}

abbrev pub Text : Type 0
Text = List ℕ

abbrev pub codes : String → Text
codes String.[] = []
codes (String.◌∷◌ c s) = code c ∷ codes s

pub data FontStretch : Type 0 where
  condensed expanded extra_condensed extra_expanded medium normal semi_condensed semi_expanded
        ultra_condensed ultra_expanded :
      FontStretch

pub data FontWeight : Type 0 where
  black bold demi_bold extra_black extra_bold extra_light heavy light medium normal regular
        semi_bold semi_light thin ultra_black ultra_bold :
      FontWeight

pub data FontStyle : Type 0 where
  italic normal oblique : FontStyle

abbrev pub stretch_values : List (Text × FontStretch)
stretch_values =
    (codes "condensed", FontStretch.condensed)
    ∷ (codes "expanded", FontStretch.expanded)
    ∷ (codes "extra_condensed", FontStretch.extra_condensed)
    ∷ (codes "extra_expanded", FontStretch.extra_expanded)
    ∷ (codes "medium", FontStretch.medium)
    ∷ (codes "normal", FontStretch.normal)
    ∷ (codes "semi_condensed", FontStretch.semi_condensed)
    ∷ (codes "semi_expanded", FontStretch.semi_expanded)
    ∷ (codes "ultra_condensed", FontStretch.ultra_condensed)
    ∷ (codes "ultra_expanded", FontStretch.ultra_expanded)
    ∷ []

abbrev pub weight_values : List (Text × FontWeight)
weight_values =
    (codes "black", FontWeight.black)
    ∷ (codes "bold", FontWeight.bold)
    ∷ (codes "demi_bold", FontWeight.demi_bold)
    ∷ (codes "extra_black", FontWeight.extra_black)
    ∷ (codes "extra_bold", FontWeight.extra_bold)
    ∷ (codes "extra_light", FontWeight.extra_light)
    ∷ (codes "heavy", FontWeight.heavy)
    ∷ (codes "light", FontWeight.light)
    ∷ (codes "medium", FontWeight.medium)
    ∷ (codes "normal", FontWeight.normal)
    ∷ (codes "regular", FontWeight.regular)
    ∷ (codes "semi_bold", FontWeight.semi_bold)
    ∷ (codes "semi_light", FontWeight.semi_light)
    ∷ (codes "thin", FontWeight.thin)
    ∷ (codes "ultra_black", FontWeight.ultra_black)
    ∷ (codes "ultra_bold", FontWeight.ultra_bold)
    ∷ (codes "ultra_light", FontWeight.light)
    ∷ []

abbrev pub style_values : List (Text × FontStyle)
style_values =
    (codes "italic", FontStyle.italic)
    ∷ (codes "normal", FontStyle.normal)
    ∷ (codes "oblique", FontStyle.oblique)
    ∷ []

pub data SizeUnit : Type 0 where
  absolute relative pixel point pica : SizeUnit

abbrev pub unit_values : List (Text × SizeUnit)
unit_values =
    (codes "", point)
    ∷ (codes "%", relative)
    ∷ (codes "em", relative)
    ∷ (codes "pc", pica)
    ∷ (codes "pt", point)
    ∷ (codes "px", pixel)
    ∷ []

-- The sizes with a name, 1.15 to the power of the number, which may be below zero.
pub data Power : Type 0 where
  up down : ℕ → Power

abbrev pub size_values : List (Text × (SizeUnit × Power))
size_values =
    (codes "large", (absolute, up 1))
    ∷ (codes "larger", (relative, up 1))
    ∷ (codes "medium", (absolute, up 0))
    ∷ (codes "small", (absolute, down 1))
    ∷ (codes "smaller", (relative, down 1))
    ∷ (codes "x-large", (absolute, up 2))
    ∷ (codes "x-small", (absolute, down 2))
    ∷ (codes "xx-large", (absolute, up 3))
    ∷ (codes "xx-small", (absolute, down 3))
    ∷ []

-- The names of `color_values`; each stands for the constant of its name in `colors`.
abbrev pub color_values : List Text
color_values =
    codes "aliceblue"
    ∷ codes "antiquewhite"
    ∷ codes "aqua"
    ∷ codes "aquamarine"
    ∷ codes "azure"
    ∷ codes "beige"
    ∷ codes "bisque"
    ∷ codes "black"
    ∷ codes "blanchedalmond"
    ∷ codes "blue"
    ∷ codes "blueviolet"
    ∷ codes "brown"
    ∷ codes "burlywood"
    ∷ codes "cadetblue"
    ∷ codes "chartreuse"
    ∷ codes "chocolate"
    ∷ codes "coral"
    ∷ codes "cornflowerblue"
    ∷ codes "cornsilk"
    ∷ codes "crimson"
    ∷ codes "cyan"
    ∷ codes "darkblue"
    ∷ codes "darkcyan"
    ∷ codes "darkgoldenrod"
    ∷ codes "darkgray"
    ∷ codes "darkgreen"
    ∷ codes "darkgrey"
    ∷ codes "darkkhaki"
    ∷ codes "darkmagenta"
    ∷ codes "darkolivegreen"
    ∷ codes "darkorange"
    ∷ codes "darkorchid"
    ∷ codes "darkred"
    ∷ codes "darksalmon"
    ∷ codes "darkseagreen"
    ∷ codes "darkslateblue"
    ∷ codes "darkslategray"
    ∷ codes "darkslategrey"
    ∷ codes "darkturquoise"
    ∷ codes "darkviolet"
    ∷ codes "deeppink"
    ∷ codes "deepskyblue"
    ∷ codes "dimgray"
    ∷ codes "dimgrey"
    ∷ codes "dodgerblue"
    ∷ codes "firebrick"
    ∷ codes "floralwhite"
    ∷ codes "forestgreen"
    ∷ codes "fuchsia"
    ∷ codes "gainsboro"
    ∷ codes "ghostwhite"
    ∷ codes "gold"
    ∷ codes "goldenrod"
    ∷ codes "gray"
    ∷ codes "green"
    ∷ codes "greenyellow"
    ∷ codes "grey"
    ∷ codes "honeydew"
    ∷ codes "hotpink"
    ∷ codes "indianred"
    ∷ codes "indigo"
    ∷ codes "ivory"
    ∷ codes "khaki"
    ∷ codes "lavender"
    ∷ codes "lavenderblush"
    ∷ codes "lawngreen"
    ∷ codes "lemonchiffon"
    ∷ codes "lightblue"
    ∷ codes "lightcoral"
    ∷ codes "lightcyan"
    ∷ codes "lightgoldenrodyellow"
    ∷ codes "lightgray"
    ∷ codes "lightgreen"
    ∷ codes "lightgrey"
    ∷ codes "lightpink"
    ∷ codes "lightsalmon"
    ∷ codes "lightseagreen"
    ∷ codes "lightskyblue"
    ∷ codes "lightslategray"
    ∷ codes "lightslategrey"
    ∷ codes "lightsteelblue"
    ∷ codes "lightyellow"
    ∷ codes "lime"
    ∷ codes "limegreen"
    ∷ codes "linen"
    ∷ codes "magenta"
    ∷ codes "maroon"
    ∷ codes "mediumaquamarine"
    ∷ codes "mediumblue"
    ∷ codes "mediumorchid"
    ∷ codes "mediumpurple"
    ∷ codes "mediumseagreen"
    ∷ codes "mediumslateblue"
    ∷ codes "mediumspringgreen"
    ∷ codes "mediumturquoise"
    ∷ codes "mediumvioletred"
    ∷ codes "midnightblue"
    ∷ codes "mintcream"
    ∷ codes "mistyrose"
    ∷ codes "moccasin"
    ∷ codes "navajowhite"
    ∷ codes "navy"
    ∷ codes "oldlace"
    ∷ codes "olive"
    ∷ codes "olivedrab"
    ∷ codes "orange"
    ∷ codes "orangered"
    ∷ codes "orchid"
    ∷ codes "palegoldenrod"
    ∷ codes "palegreen"
    ∷ codes "paleturquoise"
    ∷ codes "palevioletred"
    ∷ codes "papayawhip"
    ∷ codes "peachpuff"
    ∷ codes "peru"
    ∷ codes "pink"
    ∷ codes "plum"
    ∷ codes "powderblue"
    ∷ codes "purple"
    ∷ codes "red"
    ∷ codes "rosybrown"
    ∷ codes "royalblue"
    ∷ codes "saddlebrown"
    ∷ codes "salmon"
    ∷ codes "sandybrown"
    ∷ codes "seagreen"
    ∷ codes "seashell"
    ∷ codes "sienna"
    ∷ codes "silver"
    ∷ codes "skyblue"
    ∷ codes "slateblue"
    ∷ codes "slategray"
    ∷ codes "slategrey"
    ∷ codes "snow"
    ∷ codes "springgreen"
    ∷ codes "steelblue"
    ∷ codes "tan"
    ∷ codes "teal"
    ∷ codes "thistle"
    ∷ codes "tomato"
    ∷ codes "turquoise"
    ∷ codes "violet"
    ∷ codes "wheat"
    ∷ codes "white"
    ∷ codes "whitesmoke"
    ∷ codes "yellow"
    ∷ codes "yellowgreen"
    ∷ []
