-- ===== src/Packets/Trigger.antt =====
-- core/src/addon/modules/packet.cpp: `trigger_packet`, and `run_on_all_interpreters` and the result
-- type of core/src/addon/modules/event.hpp.
-- An interpreter is Lua code outside this repository's C++: a function from the arguments of
-- `lua::call` and the state `σ` of all Lua code to the reply and the new state. `none` is an
-- interpreter in which the packet module is not loaded. A `lua::error` leaves `trigger_packet`, since
-- nothing catches it: no interpreter behind is called then.
use mathlib.Core.Path.{subst}
use fenestra_voli_edition.Base.{
  inl, inr, Option-cases, ℕ, ◌≡◌, refl, ap, ◌∙◌, Bool, true, false, Option, none, some, List, [],
  ◌∷◌, if◌then◌else◌,
}
use fenestra_voli_edition.Packets.Header.{Bytes}

pub record Call : Type 0 where
  pub incoming : Bool
  pub id : ℕ
  pub data_ : Bytes
  pub current_id : ℕ
  pub current_data : Bytes
  pub counter : ℕ
  pub timestamp : ℕ
  pub blocked : Bool
  pub injected_by : Bytes

-- The type of the first result, or the `lua::error` that the call throws.
pub data Reply : Type 0 where
  nil boolean error : Reply
  other : ℕ → Bytes → Reply

abbrev pub Interpreter : Type 0 → Type 0
Interpreter σ = Option (Call → σ → Reply × σ)

-- `packet_result`
pub data PacketResult : Type 0 where
  block unchanged : PacketResult
  modified : ℕ → Bytes → PacketResult

-- The locals that the lambda captures.
pub record Locals : Type 0 where
  pub blocked : Bool
  pub unchanged_ : Bool
  pub result_id : ℕ
  pub result_data : Bytes

-- Behind the call; after a block the reply is not read.
on_reply : Locals → Reply → Option Locals
on_reply l nil = some l
on_reply l boolean = some (if l.blocked then l else record l { blocked = true })
on_reply l (other i d) =
    some (if l.blocked then l else record l { unchanged_ = false; result_id = i; result_data = d })
on_reply l error = none

to_result : Locals → PacketResult
to_result l =
    if l.blocked
    then block
    else if l.unchanged_
    then unchanged
    else modified l.result_id l.result_data

pub record Arguments : Type 0 where
  pub incoming : Bool
  pub id : ℕ
  pub counter : ℕ
  pub timestamp : ℕ
  pub data_ : Bytes
  pub injected_by : Bytes

call_of : Arguments → Locals → Call
call_of a l = record {
  incoming = a.incoming;
  id = a.id;
  data_ = a.data_;
  current_id = if l.unchanged_ then a.id else l.result_id;
  current_data = if l.unchanged_ then a.data_ else l.result_data;
  counter = a.counter;
  timestamp = a.timestamp;
  blocked = l.blocked;
  injected_by = a.injected_by;
}

abbrev result_of : Option Locals → Option PacketResult
result_of none = none
result_of (some l) = some (to_result l)

reply_error : (l : Locals) (r : Reply) → on_reply l r ≡ none → r ≡ error
unfolding on_reply
reply_error l nil e = absurd (cc (e))
reply_error l boolean e = absurd (cc (e))
reply_error l (other i d) e = absurd (cc (e))
reply_error l error e = refl

result_none : (o : Option Locals) → result_of o ≡ none → o ≡ none
result_none none e = refl
result_none (some l) e = absurd (cc (e))

module _ {σ : Type 0} where
  -- The lambda, on one interpreter.
  visit : Interpreter σ → Arguments → Locals → σ → Option Locals × σ
  unfolding on_reply call_of
  visit none a l s = (some l, s)
  visit (some f) a l s = let (reply, s') = f (call_of a l) s in (on_reply l reply, s')

  visit_all : List (Interpreter σ) → Arguments → Option Locals → σ → Option Locals × σ
  visit_all [] a o s = (o, s)
  visit_all (i ∷ is) a none s = (none, s)
  visit_all (i ∷ is) a (some l) s = let (o, s') = visit i a l s in visit_all is a o s'

  -- None is an error of an interpreter.
  unfoldable pub trigger_packet :
      List (Interpreter σ) → Bool → ℕ → ℕ → ℕ → Bytes → Bytes → σ → Option PacketResult × σ
  unfolding visit visit_all to_result
  trigger_packet is incoming id counter timestamp data_ injected_by s =
      let arguments : Arguments = record {
        incoming = incoming;
        id = id;
        counter = counter;
        timestamp = timestamp;
        data_ = data_;
        injected_by = injected_by;
      } in
      let start : Locals = record {
        blocked = false;
        unchanged_ = true;
        result_id = 0;
        result_data = [];
      } in
      let (o, s') = visit_all is arguments (some start) s in (result_of o, s')

  -- An interpreter that replies `nil` to every call.
  abbrev pub IsSilent : Interpreter σ → Type 0
  IsSilent none = Unit {0}
  IsSilent (some f) = (c : Call) (s : σ) → (f c s).0 ≡ nil

  abbrev pub AllSilent : List (Interpreter σ) → Type 0
  AllSilent [] = Unit {0}
  AllSilent (i ∷ is) = IsSilent i × AllSilent is

  -- One of the interpreters throws in some call.
  pub data Raises : List (Interpreter σ) → Type 0 where
    here :
        (f : Call → σ → Reply × σ) (is : List (Interpreter σ)) (c : Call) (s : σ)
        → (f c s).0 ≡ error
        → Raises (some f ∷ is)
    there : (i : Interpreter σ) (is : List (Interpreter σ)) → Raises is → Raises (i ∷ is)

  visit_silent :
      (i : Interpreter σ) (a : Arguments) (l : Locals) (s : σ)
      → IsSilent i
      → (visit i a l s).0 ≡ some l
  unfolding visit
  visit_silent none a l s h = refl
  visit_silent (some f) a l s h = ap (on_reply l) (h (call_of a l) s)

  visit_all_silent :
      (is : List (Interpreter σ)) (a : Arguments) (o : Option Locals) (s : σ)
      → AllSilent is
      → (visit_all is a o s).0 ≡ o
  unfolding visit_all
  visit_all_silent [] a o s h = refl
  visit_all_silent (i ∷ is) a none s h = refl
  visit_all_silent (i ∷ is) a (some l) s h =
      visit_all_silent is a (visit i a l s).0 (visit i a l s).1 h.1 ∙ visit_silent i a l s h.0

  visit-Raises :
      (i : Interpreter σ) (is : List (Interpreter σ)) (a : Arguments) (l : Locals) (s : σ)
      → (visit i a l s).0 ≡ none
      → Raises (i ∷ is)
  unfolding visit
  visit-Raises none is a l s e = absurd (cc (e))
  visit-Raises (some f) is a l s e =
      here f is (call_of a l) s (reply_error l (f (call_of a l) s).0 e)

  visit_all-none :
      (is : List (Interpreter σ)) (a : Arguments) (s : σ) → (visit_all is a none s).0 ≡ none
  unfolding visit_all
  visit_all-none [] a s = refl
  visit_all-none (i ∷ is) a s = refl

  visit_all-Raises :
      (is : List (Interpreter σ)) (a : Arguments) (l : Locals) (s : σ)
      → (visit_all is a (some l) s).0 ≡ none
      → Raises is
  unfolding visit_all
  visit_all-Raises [] a l s e = absurd (cc (e))
  visit_all-Raises (i ∷ is) a l s e = elim (Option-cases (visit i a l s).0) [
    | inl h ↦ visit-Raises i is a l s h
    | inr (l', h) ↦ there i is (
        visit_all-Raises is a l' (visit i a l s).1
          (subst (λ o. (visit_all is a o (visit i a l s).1).0 ≡ none) h e))
  ]

  -- If no interpreter says anything, the packet is left as it is.
  pub trigger_packet_silent :
      (is : List (Interpreter σ)) (incoming : Bool) (id counter timestamp : ℕ)
      (data_ injected_by : Bytes) (s : σ)
      → AllSilent is
      → (trigger_packet is incoming id counter timestamp data_ injected_by s).0 ≡ some unchanged
  unfolding trigger_packet
  trigger_packet_silent is incoming id counter timestamp data_ injected_by s h =
      ap result_of (visit_all_silent is _ _ _ h)

  pub trigger_packet-Raises :
      (is : List (Interpreter σ)) (incoming : Bool) (id counter timestamp : ℕ)
      (data_ injected_by : Bytes) (s : σ)
      → (trigger_packet is incoming id counter timestamp data_ injected_by s).0 ≡ none
      → Raises is
  unfolding trigger_packet
  trigger_packet-Raises is incoming id counter timestamp data_ injected_by s e =
      visit_all-Raises is _ _ s (result_none _ e)
