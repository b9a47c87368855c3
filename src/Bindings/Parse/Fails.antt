-- ===== src/Bindings/Parse/Fails.antt =====
-- core/src/binding_manager.cpp: `parse_bind_string` accepts no text.
use fenestra_voli_edition.Base.{
  ℕ, zero, suc, ◌≡◌, refl, Bool, Bool-cases, List, [], ◌∷◌, inl, inr, ◌⊎◌,
}
use fenestra_voli_edition.Unicode.{Bytes, Icu, next_code_point}
use fenestra_voli_edition.Bindings.Parse.Table.{ℤ, pos, parse_table, push_map}
use fenestra_voli_edition.Bindings.Parse.{
  ParsedKey, ParsedFlag, State, syntax_error, out_of_fuel, loop, round, parse_bind_string, lookup,
  expand, act, next_token, class_of,
}

-- What is read of the empty text is white space or an unknown character, again and again.
next_token_empty : (icu : Icu) → (next_token icu [] 0 ≡ (8, 0)) ⊎ (next_token icu [] 0 ≡ (9, 0))
unfolding next_token class_of next_code_point
next_token_empty icu = elim (Bool-cases (icu.is_whitespace 0xFFFD)) [
  | inl h ↦ inl (rw h refl)
  | inr h ↦ inr (rw h refl)
]

module _ (icu : Icu) (match_all : Bool) (keys : List ParsedKey) (flags : List ParsedFlag) where
  abbrev at_start : List ℕ → List ℤ → ℕ → State
  at_start marks stack token = record {
    keys = keys;
    flags = flags;
    marks = marks;
    stack = stack;
    next = 0;
    index = 0;
    input = token;
  }

  name_forever :
      (fuel : ℕ) (marks : List ℕ) (stack : List ℤ)
      → next_token icu [] 0 ≡ (9, 0)
      → loop fuel icu match_all [] (at_start marks (pos 27 ∷ stack) 9) ≡ out_of_fuel
  unfolding loop round lookup parse_table expand push_map
  name_forever zero marks stack e = refl
  name_forever (suc zero) marks stack e = refl
  name_forever (suc (suc zero)) marks stack e = refl
  name_forever (suc (suc (suc fuel))) marks stack e = rw e (name_forever fuel marks stack e)

  space_forever :
      (fuel : ℕ) (marks : List ℕ) (stack : List ℤ)
      → next_token icu [] 0 ≡ (8, 0)
      → loop fuel icu match_all [] (at_start marks (pos 33 ∷ stack) 8) ≡ out_of_fuel
  unfolding loop round lookup parse_table expand push_map
  space_forever zero marks stack e = refl
  space_forever (suc zero) marks stack e = refl
  space_forever (suc (suc fuel)) marks stack e = rw e (space_forever fuel marks stack e)

  start_forever :
      (fuel : ℕ)
      → next_token icu [] 0 ≡ (9, 0)
      → loop fuel icu match_all [] (at_start [] (pos 10 ∷ []) 9) ≡ out_of_fuel
  unfolding loop round lookup parse_table expand push_map act
  start_forever zero e = refl
  start_forever (suc zero) e = refl
  start_forever (suc (suc zero)) e = refl
  start_forever (suc (suc (suc zero))) e = refl
  start_forever (suc (suc (suc (suc zero)))) e = refl
  start_forever (suc (suc (suc (suc (suc zero))))) e = refl
  start_forever (suc (suc (suc (suc (suc (suc zero)))))) e = refl
  start_forever (suc (suc (suc (suc (suc (suc (suc zero))))))) e = refl
  start_forever (suc (suc (suc (suc (suc (suc (suc (suc fuel)))))))) e =
      rw e (name_forever fuel _ _ e)

parse_bind_string_name :
    (fuel : ℕ) (icu : Icu) (match_all : Bool)
    → next_token icu [] 0 ≡ (9, 0)
    → parse_bind_string fuel icu [] match_all ≡ out_of_fuel
unfolding parse_bind_string
parse_bind_string_name fuel icu match_all e = rw e (start_forever icu match_all [] [] fuel e)

parse_bind_string_space :
    (fuel : ℕ) (icu : Icu) (match_all : Bool)
    → next_token icu [] 0 ≡ (8, 0)
    → parse_bind_string fuel icu [] match_all ≡ out_of_fuel
unfolding parse_bind_string loop round lookup parse_table expand push_map
parse_bind_string_space zero icu match_all e = refl
parse_bind_string_space (suc fuel) icu match_all e =
    rw e (space_forever icu match_all [] [] fuel [] _ e)

parse_bind_string_rejects :
    (fuel : ℕ) (icu : Icu) (b : ℕ) (bs : Bytes) (match_all : Bool)
    → parse_bind_string (suc fuel) icu (b ∷ bs) match_all ≡ syntax_error 10 0 0 0 0
unfolding parse_bind_string loop round lookup parse_table next_token
parse_bind_string_rejects fuel icu b bs match_all = refl

-- parse_bind_string throws BIND:P10 at the start of every text that is not empty, and never ends on
-- the empty one, whether the whole text has to be a binding or not.
pub parse_bind_string_fails :
    (fuel : ℕ) (icu : Icu) (match_all : Bool) (b : ℕ) (bs : Bytes)
    → (parse_bind_string (suc fuel) icu (b ∷ bs) match_all ≡ syntax_error 10 0 0 0 0)
      × (parse_bind_string fuel icu [] match_all ≡ out_of_fuel)
parse_bind_string_fails fuel icu match_all b bs = (
  parse_bind_string_rejects fuel icu b bs match_all,
  elim (next_token_empty icu) [
    | inl e ↦ parse_bind_string_space fuel icu match_all e
    | inr e ↦ parse_bind_string_name fuel icu match_all e
  ],
)
