-- ===== src/Scanner/Match/Repeats.antt =====
-- core/src/scanner.cpp: the results of `scan` in a section that holds the signature.
use mathlib.Core.Path.{subst}
use fenestra_voli_edition.Base.{
  ℕ, zero, suc, ◌+◌, ◌-◌, ◌≤◌, ◌<◌, ◌≡◌, refl, ap, sym, ◌∙◌, true, false, none, some, List, [], ◌∷◌,
  ◌++◌, length, length-drop, drop, arith,
}
use fenestra_voli_edition.Unicode.{Bytes}
use fenestra_voli_edition.Scanner.Signature.{Cell, Signature}
use fenestra_voli_edition.Scanner.Match.{
  search, match_, scan_section, found_address, Section, get_data, scan,
}
use fenestra_voli_edition.Scanner.Match.First.{fits, AllBytes, IsFirst, match_-IsFirst, here}

abbrev pub repeat : ℕ → ℕ → List ℕ
repeat zero a = []
repeat (suc n) a = a ∷ repeat n a

AllBytes-drop : (i : ℕ) (bs : Bytes) → AllBytes bs → AllBytes (drop i bs)
AllBytes-drop zero bs a = a
AllBytes-drop (suc i) [] a = tt
AllBytes-drop (suc i) (b ∷ bs) a = AllBytes-drop i bs a.1

module _ (c : Cell) (cs : List Cell) (full : c.mask ≡ 0xFF) where
  search_here :
      (left : ℕ) (data_ : Bytes)
      → 0 < left
      → AllBytes data_
      → fits (c ∷ cs) data_ ≡ true
      → search c cs left data_ 0 ≡ some 0
  unfolding search
  search_here zero data_ h a f = absurd (omega (arith, h))
  search_here (suc left) [] h a f = absurd (cc)
  search_here (suc left) (b ∷ bs) h a f = ground (arith, here c cs full b bs a.0, f)

  -- Data that starts with the signature and is longer.
  match_here :
      (data_ : Bytes)
      → length (c ∷ cs) < length data_
      → AllBytes data_
      → fits (c ∷ cs) data_ ≡ true
      → match_ (c ∷ cs) data_ ≡ some (some 0)
  unfolding match_
  match_here data_ h a f =
      ground (arith, h, search_here (length data_ - length (c ∷ cs)) data_ (omega (arith, h)) a f)

module _ (read : ℕ → ℕ) (sig : Signature) where
  turn :
      (room address i : ℕ) (data_ : Bytes) {results : List ℕ}
      → match_ sig.cells (drop i data_) ≡ some (some 0)
      → scan_section read sig room (address + i) (drop i data_) (some (some 0)) ≡ some results
      → scan_section read sig (suc room) address data_ (some (some i))
        ≡ some (found_address read sig (address + i) ∷ results)
  unfolding scan_section
  turn room address i data_ e f = ground (arith, e, f)

  stays :
      (room address : ℕ) (data_ : Bytes)
      → match_ sig.cells data_ ≡ some (some 0)
      → scan_section read sig room address data_ (some (some 0))
        ≡ some (repeat room (found_address read sig address))
  unfolding scan_section
  stays zero address data_ e = refl
  stays (suc room) address data_ e =
      let z : address + 0 ≡ address = omega arith in
      turn room address 0 data_ e (stays room (address + 0) data_ e)
      ∙ ap (λ a. some (repeat (suc room) (found_address read sig a))) z

  module _ (c : Cell) (cs : List Cell) (shape : sig.cells ≡ c ∷ cs) (full : c.mask ≡ 0xFF) where
    rest_matches :
        (data_ : Bytes) (i : ℕ)
        → AllBytes data_
        → length (c ∷ cs) ≤ length data_
        → match_ sig.cells data_ ≡ some (some i)
        → match_ sig.cells (drop i data_) ≡ some (some 0)
    rest_matches data_ i a h e =
        let (r, found, first) = match_-IsFirst c cs full data_ a h in
        let same : r ≡ some i = cc in
        let (l, f, b) =
          subst (IsFirst (c ∷ cs) data_ (length data_ - length (c ∷ cs))) same first in
        subst (λ x. match_ x (drop i data_) ≡ some (some 0)) (sym shape)
          (match_here c cs full (drop i data_) (omega (arith, l, h, length-drop i data_))
            (AllBytes-drop i data_ a) f)

    -- A section in which the signature is found fills all the results with its first place.
    pub scan_section_repeats :
        (room address i : ℕ) (data_ : Bytes)
        → AllBytes data_
        → length (c ∷ cs) ≤ length data_
        → match_ sig.cells data_ ≡ some (some i)
        → scan_section read sig room address data_ (match_ sig.cells data_)
          ≡ some (repeat room (found_address read sig (address + i)))
    unfolding scan_section
    scan_section_repeats zero address i data_ a h e = rw (e, scan_section) refl
    scan_section_repeats (suc room) address i data_ a h e =
        let again : match_ sig.cells (drop i data_) ≡ some (some 0) = rest_matches data_ i a h e in
        ap (scan_section read sig (suc room) address data_) e
        ∙ turn room address i data_ again (stays room (address + i) (drop i data_) again)

-- No section in front holds the signature, and none is too small or has no code.
abbrev pub Unfound : List Cell → List Section → Type 0
Unfound cells [] = Unit {0}
Unfound cells (s ∷ ss) = (match_ cells (get_data s) ≡ some none) × Unfound cells ss

match_nil : (cells : List Cell) → match_ cells [] ≡ none
unfolding match_
match_nil [] = refl
match_nil (c ∷ cs) = ground arith

no_code :
    (cells : List Cell) (s : Section) → s.executable ≡ false → match_ cells (get_data s) ≡ none
unfolding get_data
no_code cells s e = rw e (match_nil cells)

module _ (read : ℕ → ℕ) (sig : Signature) where
  fault_here :
      (room : ℕ) (s : Section) (back : List Section)
      → match_ sig.cells (get_data s) ≡ none
      → scan read sig room (s ∷ back) ≡ none
  unfolding scan scan_section
  fault_here room s back e = ground (arith, e)

  fault_behind :
      (room : ℕ) (s : Section) (ss : List Section)
      → 0 < room
      → match_ sig.cells (get_data s) ≡ some none
      → scan read sig (room - 0) ss ≡ none
      → scan read sig room (s ∷ ss) ≡ none
  unfolding scan scan_section
  fault_behind room s ss h e f = ground (arith, h, e, f)

  -- If the signature is in none of the sections in front of one without code, then the search takes
  -- an iterator out of that section's span.
  pub scan_faults :
      (room : ℕ) (front back : List Section) (s : Section)
      → 0 < room
      → Unfound sig.cells front
      → s.executable ≡ false
      → scan read sig room (front ++ s ∷ back) ≡ none
  scan_faults room [] back s h u e = fault_here room s back (no_code sig.cells s e)
  scan_faults room (x ∷ front) back s h u e =
      fault_behind room x (front ++ s ∷ back) h u.0
        (scan_faults (room - 0) front back s (omega (arith, h)) u.1 e)
