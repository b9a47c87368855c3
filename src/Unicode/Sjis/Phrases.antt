-- ===== src/Unicode/Sjis/Phrases.antt =====
-- core/src/unicode.cpp: phrases are written and read back.
use fenestra_voli_edition.Base.{
  ℕ, ◌+◌, ◌*◌, ◌%◌, ◌/◌, ◌^◌, ◌≤◌, ◌<◌, ◌≡◌, ◌≢◌, ◌∙◌, ap, ◌⊎◌, inl, inr, some, [], ◌∷◌, ◌++◌,
  arith, true,
}
use fenestra_voli_edition.Unicode.{Bytes, is_autotranslate}
use fenestra_voli_edition.Unicode.Sjis.{
  Tables, next_code_unit, masked, decode_autotranslate, next_phrase, next_sjis_code_point,
  phrase_id, phrase_type, no_zero, to_autotranslate_id, append_sjis,
}

-- The code points of phrases that are carried unchanged.
abbrev pub IsPhrase : ℕ → Type 0
IsPhrase cp =
    ((0x100000 ≤ cp) × (cp ≤ 0x10FFFD))
    ⊎ ((0xF8000 ≤ cp) × (cp ≤ 0xFFFFD))
    ⊎ ((0xF0100 ≤ cp) × (cp ≤ 0xF7FFF) × (cp % 256 ≢ 0))

pack : ℕ → ℕ → ℕ → ℕ → ℕ
pack a b c d = a + b * 2 ^ 8 + c * 2 ^ 16 + d * 2 ^ 24

pack_some : (a b c d : ℕ) → 0 < a → 0 < pack a b c d
unfolding pack
pack_some a b c d h = omega (arith, h)

bytes_of : ℕ → Bytes
bytes_of id =
    0xFD
    ∷ (id % 2 ^ 8)
    ∷ (id / 2 ^ 8 % 2 ^ 8)
    ∷ (id / 2 ^ 16 % 2 ^ 8)
    ∷ (id / 2 ^ 24 % 2 ^ 8)
    ∷ 0xFD
    ∷ []

bytes_of-pack :
    (a b c d : ℕ)
    → a < 256
    → b < 256
    → c < 256
    → d < 256
    → bytes_of (pack a b c d) ≡ 0xFD ∷ a ∷ b ∷ c ∷ d ∷ 0xFD ∷ []
unfolding bytes_of pack
bytes_of-pack a b c d h i j k = ground (arith, h, i, j, k)

no_zero_small : (a : ℕ) → a < 256 → no_zero a < 256
no_zero_small a h = ground (arith, h)

-- The bytes of a phrase decode to it.
module _ (cp : ℕ) where
  abbrev high : ℕ
  high = phrase_id cp / 2 ^ 8 % 2 ^ 8

  abbrev low : ℕ
  low = phrase_id cp % 2 ^ 8

  decode_large :
      0x100000 ≤ cp
      → cp ≤ 0x10FFFD
      → decode_autotranslate (phrase_type cp high low) (no_zero high) (no_zero low) ≡ cp
  unfolding decode_autotranslate phrase_type phrase_id masked
  decode_large h k = ground (arith, h, k)

  decode_upper :
      0xF8000 ≤ cp
      → cp ≤ 0xFFFFD
      → decode_autotranslate (phrase_type cp high low) (no_zero high) (no_zero low) ≡ cp
  unfolding decode_autotranslate phrase_type phrase_id masked
  decode_upper h k = ground (arith, h, k)

  decode_lower :
      0xF0100 ≤ cp
      → cp ≤ 0xF7FFF
      → cp % 256 ≢ 0
      → decode_autotranslate (phrase_type cp high low) (no_zero high) (no_zero low) ≡ cp
  unfolding decode_autotranslate phrase_type phrase_id masked
  decode_lower h k n = ground (arith, h, k, n)

  decode_phrase :
      IsPhrase cp → decode_autotranslate (phrase_type cp high low) (no_zero high) (no_zero low) ≡ cp
  decode_phrase (inl h) = decode_large h.0 h.1
  decode_phrase (inr (inl h)) = decode_upper h.0 h.1
  decode_phrase (inr (inr h)) = decode_lower h.0 h.1 h.2

  phrase_type_bounds : IsPhrase cp → (0 < phrase_type cp high low) × (phrase_type cp high low < 256)
  unfolding phrase_type phrase_id
  phrase_type_bounds (inl h) = (ground (arith, h), ground (arith, h))
  phrase_type_bounds (inr (inl h)) = (ground (arith, h), ground (arith, h))
  phrase_type_bounds (inr (inr h)) = (ground (arith, h), ground (arith, h))

  is_phrase : IsPhrase cp → is_autotranslate cp ≡ true
  unfolding is_autotranslate
  is_phrase (inl h) = ground (arith, h)
  is_phrase (inr (inl h)) = ground (arith, h)
  is_phrase (inr (inr h)) = ground (arith, h)

  above_tables : IsPhrase cp → 0xFFFF < cp
  above_tables (inl h) = omega (arith, h.0)
  above_tables (inr (inl h)) = omega (arith, h.0)
  above_tables (inr (inr h)) = omega (arith, h.0)

  -- The bytes of the number.
  phrase_bytes : ℕ → Bytes
  phrase_bytes client_language =
      0xFD ∷ phrase_type cp high low ∷ client_language ∷ no_zero high ∷ no_zero low ∷ 0xFD ∷ []

  append_id :
      (t : Tables) (str : Bytes) (client_language : ℕ)
      → 0xFFFF < cp
      → 0 < to_autotranslate_id cp client_language
      → let id = to_autotranslate_id cp client_language in
        append_sjis t str cp client_language ≡ some (str ++ bytes_of id)
  unfolding append_sjis bytes_of
  append_id t str client_language h k = ground (arith, h, k)

  id_phrase :
      (client_language : ℕ)
      → IsPhrase cp
      → to_autotranslate_id cp client_language
        ≡ pack (phrase_type cp high low) client_language (no_zero high) (no_zero low)
  unfolding to_autotranslate_id pack
  id_phrase client_language h =
      let (some_type, small) = phrase_type_bounds h in ground (arith, some_type, is_phrase h)

  append_phrase :
      (t : Tables) (str : Bytes) (client_language : ℕ)
      → IsPhrase cp
      → client_language < 256
      → append_sjis t str cp client_language ≡ some (str ++ phrase_bytes client_language)
  unfolding phrase_bytes
  append_phrase t str client_language h l =
      let (some_type, small) = phrase_type_bounds h in
      let e = id_phrase client_language h in
      let some_id =
        pack_some (phrase_type cp high low) client_language (no_zero high) (no_zero low)
          some_type in
      append_id t str client_language (above_tables h) (omega (arith, e, some_id))
      ∙ ap (λ (bs : Bytes). some (str ++ bs))
          (ap bytes_of e
            ∙ bytes_of-pack (phrase_type cp high low) client_language (no_zero high) (no_zero low)
                small l (no_zero_small high (omega arith)) (no_zero_small low (omega arith)))

  read_phrase :
      (t : Tables) (rest : Bytes) (client_language : ℕ)
      → IsPhrase cp
      → 0 < client_language
      → next_sjis_code_point t (phrase_bytes client_language ++ rest) ≡ some (cp, rest)
  unfolding next_sjis_code_point next_code_unit phrase_bytes next_phrase
  read_phrase t rest client_language h l =
      let (some_type, small) = phrase_type_bounds h in ground (arith, some_type, l, decode_phrase h)

  -- A code point of a phrase that is written in Shift JIS is read back, with what stands behind it, in any
  -- language from 1 to 255: from 0x100000 to 0x10FFFD, from 0xF8000 to 0xFFFFD, and from 0xF0100 to 0xF7FFF
  -- where its low byte is not zero.
  pub next_sjis_code_point-append_sjis :
      (t : Tables) (str rest : Bytes) (client_language : ℕ)
      → IsPhrase cp
      → 0 < client_language
      → client_language < 256
      → (bs : Bytes) × (append_sjis t str cp client_language ≡ some (str ++ bs))
        × (next_sjis_code_point t (bs ++ rest) ≡ some (cp, rest))
  next_sjis_code_point-append_sjis t str rest client_language h l m = (
    phrase_bytes client_language,
    append_phrase t str client_language h m,
    read_phrase t rest client_language h l,
  )
