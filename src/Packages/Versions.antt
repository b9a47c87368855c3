-- ===== src/Packages/Versions.antt =====
-- core/src/addon/package_manager.cpp: `package_version`, its parser and its order.
use Prim.Native.Nat.{compare, Ordering}
use Prim.Native.Nat.Ordering.{lt, eq, gt}
use fenestra_voli_edition.Base.{
  ℕ, ◌+◌, ◌-◌, ◌*◌, ◌^◌, ◌<◌, ◌≡◌, refl, Bool, true, false, [], ◌∷◌, ◌++◌, ◌==◌, ltb, within,
  if◌then◌else◌, length, drop, arith, drop-append,
}
use fenestra_voli_edition.Base.Order.{compare_text}
use fenestra_voli_edition.Unicode.{Bytes}

pub record Version : Type 0 where
  pub major : ℕ
  pub minor : ℕ
  pub revision : ℕ
  pub build : ℕ
  pub tag : Bytes

-- `std::from_chars`: how many digits stand in front, and their value.
unfoldable pub digits : Bytes → ℕ → ℕ × ℕ
digits [] value = (0, value)
digits (c ∷ cs) value =
    let (n, v) = digits cs (value * 10 + (c - b'0')) in
    if within b'0' b'9' c then (n + 1, v) else (0, value)

-- `parse` of utility.cpp for 32 bits: the number of characters, and the value, which stays the old
-- one if there is no digit or the number is out of range.
unfoldable pub parse : Bytes → ℕ → ℕ × ℕ
parse s old =
    let (n, v) = digits s 0 in
    if n == 0 then (0, old) else if ltb v (2 ^ 32) then (n, v) else (0, old)

-- `!value.empty() && value.front() != u8'.'`
unfoldable pub goes_on : Bytes → Bool
goes_on [] = false
goes_on (c ∷ cs) = if c == b'.' then false else true

unfoldable pub skip_spaces : Bytes → Bytes
skip_spaces [] = []
skip_spaces (c ∷ cs) = let rest = skip_spaces cs in if c == b' ' then rest else c ∷ cs

-- The constructor; `garbage` is what `major`, which is not initialised, holds before.
unfoldable pub package_version : ℕ → Bytes → Version
package_version garbage value =
    let (n1, major) = parse value garbage in
    let value1 = drop n1 value in
    let (n2, minor) = if goes_on value1 then parse value1 0 else (0, 0) in
    let value2 = drop n2 value1 in
    let (n3, revision) =
      if goes_on value1 then (if goes_on value2 then parse value2 0 else (0, 0)) else (0, 0) in
    let value3 = drop n3 value2 in
    let (n4, build) =
      if goes_on value1
      then (if goes_on value2 then (if goes_on value3 then parse value3 0 else (0, 0)) else (0, 0))
      else (0, 0) in
    record {
      major = major;
      minor = minor;
      revision = revision;
      build = build;
      tag = skip_spaces (drop n4 value3);
    }

abbrev and_then : Ordering → Ordering → Ordering
and_then lt o = lt
and_then eq o = o
and_then gt o = gt

-- The default `operator<=>`: member by member.
unfoldable pub compare_version : Version → Version → Ordering
compare_version a b = and_then (compare a.major b.major) (
    and_then (compare a.minor b.minor) (
      and_then (compare a.revision b.revision)
        (and_then (compare a.build b.build) (compare_text a.tag b.tag))))

-- Only digits.
abbrev pub Digits : Bytes → Type 0
Digits [] = Unit {0}
Digits (c ∷ cs) = (within b'0' b'9' c ≡ true) × Digits cs

-- The number that the digits write, behind `value`.
abbrev pub number : Bytes → ℕ → ℕ
number [] value = value
number (c ∷ cs) value = number cs (value * 10 + (c - b'0'))

digits-number :
    (ds rest : Bytes) (value : ℕ)
    → Digits ds
    → digits (ds ++ b'.' ∷ rest) value ≡ (length ds, number ds value)
unfolding digits
digits-number [] rest value h = ground arith
digits-number (c ∷ cs) rest value h =
    ground (arith, h.0, digits-number cs rest (value * 10 + (c - b'0')) h.1)

pub parse-number :
    (ds rest : Bytes) (old : ℕ)
    → Digits ds
    → 0 < length ds
    → number ds 0 < 2 ^ 32
    → parse (ds ++ b'.' ∷ rest) old ≡ (length ds, number ds 0)
unfolding parse
parse-number ds rest old h k b = ground (arith, digits-number ds rest 0 h, k, b)

-- A version that starts with a number and a dot has this number as its major version, zero for the
-- other three, and all from the dot on as its tag.
pub package_version_dotted :
    (garbage : ℕ) (ds rest : Bytes)
    → Digits ds
    → 0 < length ds
    → number ds 0 < 2 ^ 32
    → package_version garbage (ds ++ b'.' ∷ rest)
      ≡ record { major = number ds 0; minor = 0; revision = 0; build = 0; tag = b'.' ∷ rest }
unfolding package_version goes_on skip_spaces
package_version_dotted garbage ds rest h k b =
    ground
      (arith, parse-number ds rest garbage h k b, drop-append ds (b'.' ∷ rest) (length ds) refl)
