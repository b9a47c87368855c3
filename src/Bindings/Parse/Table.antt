-- ===== src/Bindings/Parse/Table.antt =====
-- core/src/binding_manager.cpp: the tables of `parse_bind_string`.
use fenestra_voli_edition.Base.{ℕ, List, [], ◌∷◌}

-- `negsuc n` is -(n + 1).
pub data ℤ : Type 0 where
  pos : ℕ → ℤ
  negsuc : ℕ → ℤ

abbrev m1 : ℤ
m1 = negsuc 0

abbrev m2 : ℤ
m2 = negsuc 1

abbrev m3 : ℤ
m3 = negsuc 2

abbrev m4 : ℤ
m4 = negsuc 3

unfoldable pub parse_table : List (List ℤ)
parse_table =
    (pos 0 ∷ m1 ∷ m1 ∷ m1 ∷ m1 ∷ m1 ∷ m1 ∷ m1 ∷ m1 ∷ m1 ∷ m1 ∷ [])
    ∷ (m1 ∷ pos 0 ∷ m1 ∷ m1 ∷ m1 ∷ m1 ∷ m1 ∷ m1 ∷ m1 ∷ m1 ∷ m1 ∷ [])
    ∷ (m1 ∷ m2 ∷ pos 0 ∷ m1 ∷ m1 ∷ m1 ∷ m1 ∷ m1 ∷ m1 ∷ m1 ∷ m1 ∷ [])
    ∷ (m1 ∷ m2 ∷ m1 ∷ pos 0 ∷ m2 ∷ m2 ∷ m2 ∷ m2 ∷ m1 ∷ m2 ∷ m2 ∷ [])
    ∷ (m1 ∷ m1 ∷ m1 ∷ m1 ∷ pos 0 ∷ m1 ∷ m1 ∷ m2 ∷ m1 ∷ m1 ∷ m1 ∷ [])
    ∷ (m1 ∷ m1 ∷ m1 ∷ m1 ∷ m1 ∷ pos 0 ∷ m1 ∷ m2 ∷ m1 ∷ m1 ∷ m1 ∷ [])
    ∷ (m1 ∷ m1 ∷ m1 ∷ m1 ∷ m1 ∷ m1 ∷ pos 0 ∷ m2 ∷ m1 ∷ m1 ∷ m1 ∷ [])
    ∷ (m1 ∷ m2 ∷ m1 ∷ m2 ∷ m1 ∷ m1 ∷ m1 ∷ pos 0 ∷ m1 ∷ m1 ∷ m1 ∷ [])
    ∷ (m1 ∷ m1 ∷ m1 ∷ m1 ∷ m1 ∷ m1 ∷ m1 ∷ m1 ∷ pos 0 ∷ m1 ∷ m1 ∷ [])
    ∷ (m1 ∷ m1 ∷ m1 ∷ m1 ∷ m1 ∷ m1 ∷ m1 ∷ m2 ∷ m1 ∷ pos 0 ∷ m1 ∷ [])
    ∷ (pos 1 ∷ pos 1 ∷ pos 1 ∷ pos 1 ∷ pos 1 ∷ pos 1 ∷ pos 1 ∷ pos 1 ∷ pos 1 ∷ pos 1 ∷ m1 ∷ [])
    ∷ (pos 2 ∷ pos 2 ∷ pos 2 ∷ pos 2 ∷ pos 2 ∷ pos 2 ∷ pos 2 ∷ pos 2 ∷ m2 ∷ pos 2 ∷ m1 ∷ [])
    ∷ (pos 3 ∷ m4 ∷ pos 0 ∷ m4 ∷ m4 ∷ m4 ∷ m4 ∷ m4 ∷ m2 ∷ m4 ∷ pos 0 ∷ [])
    ∷ (pos 6 ∷ pos 4 ∷ pos 6 ∷ pos 6 ∷ pos 5 ∷ pos 5 ∷ pos 5 ∷ pos 6 ∷ m1 ∷ pos 5 ∷ m1 ∷ [])
    ∷ (pos 0 ∷ pos 4 ∷ pos 0 ∷ m2 ∷ m2 ∷ m2 ∷ m2 ∷ m2 ∷ pos 0 ∷ m2 ∷ pos 0 ∷ [])
    ∷ (m1 ∷ pos 7 ∷ m1 ∷ m2 ∷ m2 ∷ m2 ∷ m2 ∷ m2 ∷ m1 ∷ m2 ∷ m1 ∷ [])
    ∷ (pos 6 ∷ pos 8 ∷ pos 6 ∷ pos 6 ∷ pos 9 ∷ pos 9 ∷ pos 9 ∷ pos 6 ∷ m1 ∷ pos 9 ∷ m1 ∷ [])
    ∷ (pos 10 ∷ m2 ∷ pos 11 ∷ pos 12 ∷ m2 ∷ m2 ∷ m2 ∷ pos 13 ∷ m1 ∷ m2 ∷ m1 ∷ [])
    ∷ (m1 ∷ m1 ∷ m1 ∷ m2 ∷ pos 14 ∷ pos 15 ∷ pos 14 ∷ m2 ∷ m1 ∷ pos 14 ∷ m1 ∷ [])
    ∷ (pos 0 ∷ pos 0 ∷ pos 0 ∷ m2 ∷ pos 17 ∷ pos 17 ∷ pos 16 ∷ m2 ∷ pos 0 ∷ pos 17 ∷ pos 0 ∷ [])
    ∷ (pos 0 ∷ pos 0 ∷ pos 0 ∷ m2 ∷ pos 18 ∷ pos 19 ∷ pos 19 ∷ m2 ∷ pos 0 ∷ pos 19 ∷ pos 0 ∷ [])
    ∷ (pos 10 ∷ m1 ∷ m1 ∷ m2 ∷ pos 20 ∷ pos 20 ∷ pos 20 ∷ m2 ∷ m1 ∷ pos 20 ∷ m1 ∷ [])
    ∷ (m2 ∷ m2 ∷ pos 21 ∷ m2 ∷ m2 ∷ m2 ∷ m2 ∷ m2 ∷ m2 ∷ m2 ∷ pos 0 ∷ [])
    ∷ (m2 ∷ m2 ∷ m2 ∷ pos 0 ∷ pos 22 ∷ pos 22 ∷ pos 22 ∷ pos 22 ∷ m2 ∷ pos 22 ∷ m2 ∷ [])
    ∷ (m2 ∷ m2 ∷ m2 ∷ pos 0 ∷ m2 ∷ m2 ∷ m2 ∷ m2 ∷ pos 23 ∷ m2 ∷ m2 ∷ [])
    ∷ (m2 ∷ m2 ∷ m2 ∷ m1 ∷ pos 20 ∷ pos 20 ∷ pos 20 ∷ pos 24 ∷ m1 ∷ pos 20 ∷ m2 ∷ [])
    ∷ (m1 ∷ m1 ∷ m1 ∷ m1 ∷ pos 25 ∷ pos 25 ∷ pos 25 ∷ m2 ∷ m1 ∷ pos 25 ∷ m1 ∷ [])
    ∷ (pos 0 ∷ pos 0 ∷ pos 0 ∷ pos 0 ∷ pos 25 ∷ pos 25 ∷ pos 25 ∷ m2 ∷ pos 0 ∷ pos 25 ∷ pos 0 ∷ [])
    ∷ (m1 ∷ m1 ∷ m1 ∷ m1 ∷ pos 26 ∷ pos 27 ∷ pos 28 ∷ m2 ∷ m1 ∷ pos 29 ∷ m1 ∷ [])
    ∷ (m1 ∷ m1 ∷ m1 ∷ m2 ∷ pos 26 ∷ pos 27 ∷ m1 ∷ m2 ∷ m1 ∷ pos 29 ∷ m1 ∷ [])
    ∷ (m1 ∷ m1 ∷ m1 ∷ m2 ∷ pos 26 ∷ m1 ∷ pos 28 ∷ m2 ∷ m1 ∷ pos 29 ∷ m1 ∷ [])
    ∷ (m1 ∷ m1 ∷ m1 ∷ m2 ∷ m1 ∷ pos 27 ∷ pos 28 ∷ m2 ∷ m1 ∷ pos 29 ∷ m1 ∷ [])
    ∷ (m2 ∷ m2 ∷ m2 ∷ m2 ∷ m1 ∷ m1 ∷ m1 ∷ m1 ∷ pos 30 ∷ m1 ∷ m2 ∷ [])
    ∷ (pos 0 ∷ pos 0 ∷ pos 0 ∷ pos 0 ∷ pos 0 ∷ pos 0 ∷ pos 0 ∷ pos 0 ∷ pos 30 ∷ pos 0 ∷ pos 0 ∷ [])
    ∷ []

unfoldable pub push_map : List (ℕ × List ℤ)
push_map =
    (0, [])
    ∷ (3, pos 22 ∷ pos 11 ∷ pos 33 ∷ [])
    ∷ (5, pos 12 ∷ pos 33 ∷ m2 ∷ pos 13 ∷ m1 ∷ [])
    ∷ (7, pos 12 ∷ pos 33 ∷ m2 ∷ pos 13 ∷ m1 ∷ pos 33 ∷ pos 0 ∷ [])
    ∷ (1, pos 15 ∷ [])
    ∷ (2, pos 14 ∷ pos 18 ∷ [])
    ∷ (1, pos 17 ∷ [])
    ∷ (4, pos 16 ∷ m1 ∷ pos 1 ∷ m1 ∷ [])
    ∷ (1, pos 1 ∷ [])
    ∷ (1, pos 18 ∷ [])
    ∷ (1, pos 0 ∷ [])
    ∷ (1, pos 2 ∷ [])
    ∷ (1, pos 3 ∷ [])
    ∷ (1, pos 7 ∷ [])
    ∷ (2, pos 27 ∷ pos 30 ∷ [])
    ∷ (2, pos 19 ∷ pos 5 ∷ [])
    ∷ (2, pos 20 ∷ pos 6 ∷ [])
    ∷ (2, pos 27 ∷ pos 29 ∷ [])
    ∷ (2, pos 21 ∷ pos 4 ∷ [])
    ∷ (2, pos 27 ∷ pos 31 ∷ [])
    ∷ (1, pos 26 ∷ [])
    ∷ (5, pos 33 ∷ pos 3 ∷ pos 23 ∷ pos 33 ∷ pos 2 ∷ [])
    ∷ (4, pos 24 ∷ m3 ∷ pos 25 ∷ m1 ∷ [])
    ∷ (5, pos 24 ∷ m3 ∷ pos 25 ∷ m1 ∷ pos 32 ∷ [])
    ∷ (3, pos 26 ∷ m1 ∷ pos 7 ∷ [])
    ∷ (2, pos 27 ∷ pos 28 ∷ [])
    ∷ (1, pos 4 ∷ [])
    ∷ (1, pos 5 ∷ [])
    ∷ (1, pos 6 ∷ [])
    ∷ (1, pos 9 ∷ [])
    ∷ (2, pos 33 ∷ pos 8 ∷ [])
    ∷ []

-- The letters M, N and U of all alphabets.
abbrev pub letters_m : List ℕ
letters_m =
    77 ∷ 109 ∷ 0x1D39 ∷ 0x1D50 ∷ 0x2098 ∷ 0x2133 ∷ 0x216F ∷ 0x217F ∷ 0x24C2 ∷ 0x24DC ∷ 0xFF2D
    ∷ 0xFF4D ∷ 0x1D40C ∷ 0x1D426 ∷ 0x1D440 ∷ 0x1D45A ∷ 0x1D474 ∷ 0x1D48E ∷ 0x1D4C2 ∷ 0x1D4DC
    ∷ 0x1D4F6 ∷ 0x1D510 ∷ 0x1D52A ∷ 0x1D544 ∷ 0x1D55E ∷ 0x1D578 ∷ 0x1D592 ∷ 0x1D5AC ∷ 0x1D5C6
    ∷ 0x1D5E0 ∷ 0x1D5FA ∷ 0x1D614 ∷ 0x1D62E ∷ 0x1D648 ∷ 0x1D662 ∷ 0x1D67C ∷ 0x1D696 ∷ 0x1F13C ∷ []

abbrev pub letters_n : List ℕ
letters_n =
    78 ∷ 110 ∷ 0x1D3A ∷ 0x207F ∷ 0x2099 ∷ 0x2115 ∷ 0x24C3 ∷ 0x24DD ∷ 0xFF2E ∷ 0xFF4E ∷ 0x1D40D
    ∷ 0x1D427 ∷ 0x1D441 ∷ 0x1D45B ∷ 0x1D475 ∷ 0x1D48F ∷ 0x1D4A9 ∷ 0x1D4C3 ∷ 0x1D4DD ∷ 0x1D4F7
    ∷ 0x1D511 ∷ 0x1D52B ∷ 0x1D55F ∷ 0x1D579 ∷ 0x1D593 ∷ 0x1D5AD ∷ 0x1D5C7 ∷ 0x1D5E1 ∷ 0x1D5FB
    ∷ 0x1D615 ∷ 0x1D62F ∷ 0x1D649 ∷ 0x1D663 ∷ 0x1D67D ∷ 0x1D697 ∷ 0x1F13D ∷ []

abbrev pub letters_u : List ℕ
letters_u =
    85 ∷ 117 ∷ 0x1D41 ∷ 0x1D58 ∷ 0x1D64 ∷ 0x24CA ∷ 0x24E4 ∷ 0xFF35 ∷ 0xFF55 ∷ 0x1D414 ∷ 0x1D42E
    ∷ 0x1D448 ∷ 0x1D462 ∷ 0x1D47C ∷ 0x1D496 ∷ 0x1D4B0 ∷ 0x1D4CA ∷ 0x1D4E4 ∷ 0x1D4FE ∷ 0x1D518
    ∷ 0x1D532 ∷ 0x1D54C ∷ 0x1D566 ∷ 0x1D580 ∷ 0x1D59A ∷ 0x1D5B4 ∷ 0x1D5CE ∷ 0x1D5E8 ∷ 0x1D602
    ∷ 0x1D61C ∷ 0x1D636 ∷ 0x1D650 ∷ 0x1D66A ∷ 0x1D684 ∷ 0x1D69E ∷ 0x1F144 ∷ []
