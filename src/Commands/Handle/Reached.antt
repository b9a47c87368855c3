-- ===== src/Commands/Handle/Reached.antt =====
-- core/src/command_manager.cpp: the managers that calls lead to, and `handle_command` on them.
use mathlib.Core.Path.{subst}
use fenestra_voli_edition.Base.{
  refl, sym, ℕ, ◌≡◌, Bool, some, List, [], ◌∷◌, Bool-cases, inl, inr, arith,
}
use fenestra_voli_edition.Unicode.{Bytes, Icu}
use fenestra_voli_edition.Commands.Registry.{
  Manager, Descriptor, Layer, client, core, addon, script, at, living, purge, lower_bound, place,
  put, compare_descriptor, is_lt, new_descriptor,
}
use fenestra_voli_edition.Commands.Registry.Sorted.{
  Operation, register, unregister, purge_expired, step, register_cases,
}
use fenestra_voli_edition.Commands.Handle.{
  Outcome, Reply, returned, register_alias, unregister_alias, handle_command,
}
use fenestra_voli_edition.Commands.Handle.Total.{
  Within, Placed, update-Within, unregister_command-Placed, handle_command_ends,
}

abbrev pub empty : ℕ → Manager
empty tag = record {
  client_commands = [];
  core_commands = [];
  addon_commands = [];
  script_commands = [];
  default_tag = tag;
  aliases = [];
}

-- The managers that calls lead to from an empty one.
pub data Reached : Manager → Type 0 where
  constructed : (tag : ℕ) {m : Manager} → m ≡ empty tag → Reached m
  operated : (o : Operation) (m : Manager) {m' : Manager} → Reached m → m' ≡ step m o → Reached m'
  aliased :
      (icu : Icu) (alias command : Bytes) (m : Manager) {m' : Manager}
      → Reached m
      → register_alias icu alias command m ≡ returned m'
      → Reached m'
  unaliased :
      (alias : Bytes) (m : Manager) {m' : Manager}
      → Reached m
      → m' ≡ unregister_alias alias m
      → Reached m'

put-Within :
    (l : Layer) (d : Descriptor) (ds : List Descriptor)
    → d.layer ≡ l
    → Within l ds
    → Within l (put d ds)
unfolding put lower_bound place
put-Within l d [] e h = (e, tt)
put-Within l d (x ∷ xs) e h = elim (Bool-cases (is_lt (compare_descriptor x d))) [
  | inl before ↦ rw before (h.0, put-Within l d xs e h.1)
  | inr at_it ↦ elim (Bool-cases (is_lt (compare_descriptor d x))) [
    | inl new ↦ rw (at_it, new) (e, h)
    | inr same ↦ rw (at_it, same) (e, h.1)
  ]
]

living-Within :
    (l : Layer) (alive : ℕ → Bool) (ds : List Descriptor) → Within l ds → Within l (living alive ds)
unfolding living
living-Within l alive [] h = tt
living-Within l alive (x ∷ xs) h = elim (Bool-cases (alive x.tag)) [
  | inl e ↦ rw e (h.0, living-Within l alive xs h.1)
  | inr e ↦ rw e (living-Within l alive xs h.1)
]

purge-Placed : (alive : ℕ → Bool) (m : Manager) → Placed m → Placed (purge alive m)
unfolding purge
purge-Placed alive m p client = living-Within client alive m.client_commands (p client)
purge-Placed alive m p core = living-Within core alive m.core_commands (p core)
purge-Placed alive m p addon = living-Within addon alive m.addon_commands (p addon)
purge-Placed alive m p script = living-Within script alive m.script_commands (p script)

step-Placed : (m : Manager) (o : Operation) → Placed m → Placed (step m o)
unfolding step
step-Placed m (register layer component command handler raw tag) p =
    let d = new_descriptor layer component command handler raw tag m in
    elim (register_cases layer component command handler raw tag m) [
      | inl e ↦ rw e p
      | inr e ↦ rw e (λ l.
          update-Within l layer (put d (at layer m)) m
            (put-Within layer d (at layer m) refl (p layer)) (p l))
    ]
step-Placed m (unregister layer component command) p =
    unregister_command-Placed layer component command m p
step-Placed m (purge_expired alive) p = purge-Placed alive m p

register_alias-at :
    (icu : Icu) (alias command : Bytes) (m m' : Manager) (l : Layer)
    → register_alias icu alias command m ≡ returned m'
    → at l m' ≡ at l m
unfolding register_alias
register_alias-at icu alias command m m' client e = ground (arith, e)
register_alias-at icu alias command m m' core e = ground (arith, e)
register_alias-at icu alias command m m' addon e = ground (arith, e)
register_alias-at icu alias command m m' script e = ground (arith, e)

unregister_alias-at :
    (alias : Bytes) (m : Manager) (l : Layer) → at l (unregister_alias alias m) ≡ at l m
unfolding unregister_alias
unregister_alias-at alias m client = refl
unregister_alias-at alias m core = refl
unregister_alias-at alias m addon = refl
unregister_alias-at alias m script = refl

empty-Placed : (tag : ℕ) → Placed (empty tag)
empty-Placed tag client = tt
empty-Placed tag core = tt
empty-Placed tag addon = tt
empty-Placed tag script = tt

Reached-Placed : (m : Manager) → Reached m → Placed m
Reached-Placed m (constructed tag e) = subst Placed (sym e) (empty-Placed tag)
Reached-Placed m (operated o m0 h e) = subst Placed (sym e) (step-Placed m0 o (Reached-Placed m0 h))
Reached-Placed m (aliased icu alias command m0 h e) = λ l.
    subst (Within l) (sym (register_alias-at icu alias command m0 m l e)) (Reached-Placed m0 h l)
Reached-Placed m (unaliased alias m0 h e) =
    subst Placed (sym e)
      (λ l. subst (Within l) (sym (unregister_alias-at alias m0 l)) (Reached-Placed m0 h l))

module _ {σ : Type 0} (put_utf8 : ℕ → Bytes) (icu : Icu) (alive : ℕ → Bool)
    (handler : ℕ → List Bytes → σ → Reply × σ)
    (trigger_unknown_command : Bytes → σ → Bool × σ) where
  -- handle_command ends on every command line, with a result, an exception or a fault, on every manager
  -- that calls of the other operations lead to from an empty one.
  pub handle_command-Reached :
      (command_string : Bytes) (m : Manager) (s : σ)
      → Reached m
      → (r : Outcome (Unit {0}) × Manager × σ) × (handle_command put_utf8 icu alive handler
            trigger_unknown_command command_string m s
          ≡ some r)
  handle_command-Reached command_string m s h =
      handle_command_ends put_utf8 icu alive handler trigger_unknown_command command_string m s
        (Reached-Placed m h)
