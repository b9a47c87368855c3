-- ===== src/Unicode.antt =====
-- core/src/unicode.cpp, as far as its callers walk over UTF-8 text.
-- `U8_NEXT_OR_FFFD` and `u_isWhitespace` are ICU's. They are the fields of `Icu`, with what ICU
-- documents of them: a step over text takes at least one byte and stays inside, an ASCII byte is its
-- own code point, no other byte begins one, and the ASCII spaces are these.
pub mod Sjis
use fenestra_voli_edition.Base.{
  ℕ, ◌≤◌, ◌<◌, ◌≡◌, refl, Bool, ◌||◌, List, [], ◌∷◌, arith, ltb, ◌==◌, within, if◌then◌else◌,
  length,
}

abbrev pub Bytes : Type 0
Bytes = List ℕ

-- `u8_next` is given the bytes from the offset on, and hands back the code point and how many bytes
-- it took.
pub record Icu : Type 0 where
  pub u8_next : Bytes → ℕ × ℕ
  pub is_whitespace : ℕ → Bool
  pub takes_some : (b : ℕ) (bs : Bytes) → 0 < (u8_next (b ∷ bs)).1
  pub stays_inside : (b : ℕ) (bs : Bytes) → (u8_next (b ∷ bs)).1 ≤ length (b ∷ bs)
  pub ascii : (b : ℕ) (bs : Bytes) → b < 128 → u8_next (b ∷ bs) ≡ (b, 1)
  pub beyond_ascii : (b : ℕ) (bs : Bytes) → 128 ≤ b → 128 ≤ (u8_next (b ∷ bs)).0
  pub ascii_spaces :
      (c : ℕ) → c < 128 → is_whitespace c ≡ (within 9 13 c || within 28 31 c || c == 32)

-- `next_code_point`, on the rest of the string from the offset on.
unfoldable pub next_code_point : Icu → Bytes → ℕ × ℕ
next_code_point icu [] = (0xFFFD, 0)
next_code_point icu (b ∷ bs) = icu.u8_next (b ∷ bs)

-- `is_autotranslate` of core/src/unicode.hpp.
unfoldable pub is_autotranslate : ℕ → Bool
is_autotranslate c = within 0xF0000 0xFFFFD c || within 0x100000 0x10FFFD c

-- An instance: a byte that is not ASCII is decoded alone, to U+FFFD.
abbrev decode_byte : Bytes → ℕ × ℕ
decode_byte [] = (0xFFFD, 0)
decode_byte (b ∷ bs) = if ltb b 128 then (b, 1) else (0xFFFD, 1)

abbrev is_space : ℕ → Bool
is_space c = within 9 13 c || within 28 31 c || c == 32

pub decode_byte_takes : (b : ℕ) (bs : Bytes) → 0 < (decode_byte (b ∷ bs)).1
decode_byte_takes b bs = ground arith

pub decode_byte_inside : (b : ℕ) (bs : Bytes) → (decode_byte (b ∷ bs)).1 ≤ length (b ∷ bs)
decode_byte_inside b bs = ground arith

pub decode_byte_ascii : (b : ℕ) (bs : Bytes) → b < 128 → decode_byte (b ∷ bs) ≡ (b, 1)
decode_byte_ascii b bs h = ground arith

pub decode_byte_beyond : (b : ℕ) (bs : Bytes) → 128 ≤ b → 128 ≤ (decode_byte (b ∷ bs)).0
decode_byte_beyond b bs h = ground arith

abbrev pub ascii_only : Icu
ascii_only = record {
  u8_next = decode_byte;
  is_whitespace = is_space;
  takes_some = decode_byte_takes;
  stays_inside = decode_byte_inside;
  ascii = decode_byte_ascii;
  beyond_ascii = decode_byte_beyond;
  ascii_spaces = λ c h. refl;
}
