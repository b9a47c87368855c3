-- ===== src/Commands/Handle/Aliases.antt =====
-- core/src/command_manager.cpp: the table of aliases.
use fenestra_voli_edition.Base.{◌≡◌, some, List, [], ◌∷◌, arith, if◌then◌else◌}
use fenestra_voli_edition.Base.Order.{
  compare_text, compare_text-eq, compare_text-flip, compare_text_self, compare_text_trans,
}
use fenestra_voli_edition.Unicode.{Bytes, Icu}
use fenestra_voli_edition.Commands.Registry.{
  Manager, is_eq, Result, ok, err, checked, non_empty, a1,
}
use fenestra_voli_edition.Commands.Handle.{
  put_alias, alias_of, register_alias, resolve_alias, Outcome, returned, thrown, validate_command,
  registry,
}

alias_of-put_alias :
    (k alias command : Bytes) (xs : List (Bytes × Bytes))
    → alias_of k (put_alias alias command xs)
      ≡ (if is_eq (compare_text alias k) then some command else alias_of k xs)
unfolding alias_of put_alias
alias_of-put_alias k alias command [] = ground (arith, compare_text-eq alias k)
alias_of-put_alias k alias command (x ∷ xs) = ground (
  arith,
  alias_of-put_alias k alias command xs,
  compare_text-eq alias k,
  compare_text-eq x.0 alias,
  compare_text-eq x.0 k,
  compare_text_self k,
  compare_text-flip x.0 alias,
  compare_text-flip alias k,
  compare_text-flip x.0 k,
  compare_text_trans x.0 alias k,
  compare_text_trans k alias x.0,
)

stored :
    (a b : Result (Unit {0})) (v : Outcome (Unit {0})) {n m' : Manager}
    → (elim a [
      | err e ↦ thrown (registry e)
      | ok _ ↦ elim b [
        | err e ↦ thrown (registry e)
        | ok _ ↦ elim v [ thrown e ↦ thrown e | returned _ ↦ returned n ]
      ]
    ])
      ≡ returned m'
    → n ≡ m'
stored (ok _) (ok _) (returned _) e = cc
stored (ok _) (ok _) (thrown _) e = cc
stored (ok _) (err _) v e = cc
stored (err _) b v e = cc

-- After an alias is registered it resolves to its command, and any other name as before.
pub register_alias-resolve_alias :
    (icu : Icu) (alias command : Bytes) (m : Manager) {m' : Manager} (k : Bytes)
    → register_alias icu alias command m ≡ returned m'
    → resolve_alias k m'
      ≡ (if is_eq (compare_text alias k) then some command else resolve_alias k m)
unfolding register_alias resolve_alias
register_alias-resolve_alias icu alias command m {m'} k e =
    let added : Manager = record m { aliases = put_alias alias command m.aliases } in
    let p : added ≡ m' =
      stored (checked alias) (non_empty alias a1) (validate_command icu command) e in
    rw (← p) (alias_of-put_alias k alias command m.aliases)
