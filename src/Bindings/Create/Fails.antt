-- ===== src/Bindings/Create/Fails.antt =====
-- core/src/binding_manager.cpp: no text is bound or unbound.
use fenestra_voli_edition.Base.{ℕ, suc, ◌≡◌, refl, [], ◌∷◌, true, false, Bool}
use fenestra_voli_edition.Unicode.{Bytes, Icu}
use fenestra_voli_edition.Bindings.{Manager}
use fenestra_voli_edition.Bindings.Parse.Fails.{parse_bind_string_fails}
use fenestra_voli_edition.Bindings.Devices.{parse, thrown, out_of_fuel}
use fenestra_voli_edition.Bindings.Create.{
  create_parsed, create_binding, bind, bind_command, unbind_text,
}

-- Binding and unbinding throw BIND:P10 for every text that is not empty, and leave the table as it was;
-- for the empty text they never end.
pub bind_fails :
    (fuel : ℕ) (icu : Icu) (fold : Bytes → Bytes) (system_key : Bytes → ℕ) (validate : Bytes → Bool)
    (c : ℕ) (cs : Bytes) (handler : ℕ) (m : Manager)
    → let text = c ∷ cs in
      (bind (suc fuel) icu fold system_key text handler m ≡ thrown (parse 10 0 0 0 0) m)
      × (bind_command (suc fuel) icu fold system_key validate text handler m
          ≡ thrown (parse 10 0 0 0 0) m)
      × (unbind_text (suc fuel) icu fold system_key text m ≡ thrown (parse 10 0 0 0 0) m)
      × (bind fuel icu fold system_key [] handler m ≡ out_of_fuel)
      × (bind_command fuel icu fold system_key validate [] handler m ≡ out_of_fuel)
      × (unbind_text fuel icu fold system_key [] m ≡ out_of_fuel)
unfolding bind bind_command unbind_text create_binding create_parsed
bind_fails fuel icu fold system_key validate c cs handler m =
    let (all, all_empty) = parse_bind_string_fails fuel icu true c cs in
    let (start, start_empty) = parse_bind_string_fails fuel icu false c cs in
    (
      rw (bind, create_binding, all) refl,
      rw (bind_command, create_binding, start) refl,
      rw (unbind_text, create_binding, all) refl,
      rw (bind, create_binding, all_empty) refl,
      rw (bind_command, create_binding, start_empty) refl,
      rw (unbind_text, create_binding, all_empty) refl,
    )
