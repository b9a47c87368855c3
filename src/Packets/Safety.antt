-- ===== src/Packets/Safety.antt =====
-- core/src/packet_queue.cpp: no access leaves a span, and the loops end.
use fenestra_voli_edition.Base.{
  ℕ, zero, suc, ◌+◌, ◌-◌, ◌≤◌, ◌<◌, ◌≡◌, refl, ◌∙◌, Bool, Option, none, Option-cases, some, List,
  [], ◌∷◌, ◌++◌, arith, leb, ltb, length, take, drop, length-append, length-drop, inl, inr,
  Bool-cases, leb→le,
}
use fenestra_voli_edition.Packets.Header.{Bytes, packet_header, header_bytes, header_size, size, id}
use fenestra_voli_edition.Packets.Trigger.{
  Interpreter, PacketResult, block, unchanged, modified, trigger_packet, Raises,
  trigger_packet-Raises,
}
use fenestra_voli_edition.Packets.Queue.{
  Packet, Output, header_of, write_packet, Next, done, skip, packet, next_packet, emit,
  process_packet, accept, read_packets, drain, PacketQueue, grown, process_buffer, Turn, went,
  thrown, and_then, finished,
}

-- What is written and what is left make up the buffer.
abbrev pub capacity : Output → ℕ
capacity out = length out.written + out.room

pub write_packet-some :
    (out : Output) (i c : ℕ) (data_ : Bytes)
    → length data_ + header_size ≤ out.room
    → write_packet out i c data_
      ≡ some (record {
        written = (out.written ++ header_bytes (packet_header i (length data_) c)) ++ data_;
        room = out.room - (length data_ + header_size);
      })
unfolding write_packet header_bytes
write_packet-some out i c data_ h = ground arith

-- A write succeeds and keeps the buffer's size.
abbrev Writes : ℕ → Option Output → Type 0
Writes n r = (out : Output) × (r ≡ some out) × (capacity out ≡ n)

write_packet-Writes :
    (out : Output) (i c : ℕ) (data_ : Bytes)
    → length data_ + header_size ≤ out.room
    → Writes (capacity out) (write_packet out i c data_)
unfolding header_bytes
write_packet-Writes out i c data_ h = (
  _,
  write_packet-some out i c data_ h,
  omega (
    arith,
    length-append {0} (out.written ++ header_bytes (packet_header i (length data_) c)) data_,
    length-append {0} out.written (header_bytes (packet_header i (length data_) c)),
  ),
)

module _ {σ : Type 0} (is : List (Interpreter σ)) (incoming : Bool) (c t : ℕ) where
  emit-Writes :
      (out : Output) (i : ℕ) (data_ : Bytes) (r : PacketResult)
      → length data_ + header_size ≤ out.room
      → Writes (capacity out) (emit is incoming c t out i data_ r)
  unfolding emit
  emit-Writes out i data_ block h = (out, refl, refl)
  emit-Writes out i data_ unchanged h = write_packet-Writes out i c data_ h
  emit-Writes out i data_ (modified i' d) h =
      elim (Bool-cases (ltb out.room (length d + header_size))) [
        | inl large ↦ rw large (write_packet-Writes out i c data_ h)
        | inr fits ↦ rw fits (write_packet-Writes out i' c d (ground arith))
      ]

  -- A stage of `process_buffer` keeps the buffer's size, or is left by an error of an interpreter.
  abbrev pub Holds : ℕ → Turn σ → Type 0
  Holds n (went out q s) = capacity out ≡ n
  Holds n (thrown q s) = Raises is

  abbrev Runs : ℕ → Option (Turn σ) → Type 0
  Runs n r = (t : Turn σ) × (r ≡ some t) × Holds n t

  process_packet-Runs :
      (out : Output) (i : ℕ) (data_ by : Bytes) (q : List Packet) (s : σ)
      → length data_ + header_size ≤ out.room
      → Runs (capacity out) (process_packet is incoming c t out i data_ by q s)
  unfolding process_packet
  process_packet-Runs out i data_ by q s h =
      let called = trigger_packet is incoming i c t data_ by s in
      elim (Option-cases called.0) [
        | inl e ↦ (
          thrown q called.1,
          rw (process_packet, e) refl,
          trigger_packet-Raises is incoming i c t data_ by s e,
        )
        | inr (r, e) ↦
            let (out', written, k) = emit-Writes out i data_ r h in
            (went out' q called.1, rw (process_packet, e, written) refl, k)
      ]

  same_capacity : (n k : ℕ) (u : Turn σ) → k ≡ n → Holds k u → Holds n u
  same_capacity n k (went out q s) e h = h ∙ e
  same_capacity n k (thrown q s) e h = h

  -- Behind a stage another one runs.
  and_then-Runs :
      (n : ℕ) (f : Output → List Packet → σ → Option (Turn σ)) (u : Turn σ)
      → ((out : Output) (q : List Packet) (s : σ) → Runs (capacity out) (f out q s))
      → Holds n u
      → Runs n (and_then f u)
  unfolding and_then
  and_then-Runs n f (went out q s) r h =
      let (u, e, k) = r out q s in (u, e, same_capacity n (capacity out) u h k)
  and_then-Runs n f (thrown q s) r h = (thrown q s, refl, h)

  accept-Runs :
      (i : ℕ) (data_ : Bytes) (out : Output) (q : List Packet) (s : σ)
      → Runs (capacity out) (accept is incoming c t i data_ out q s)
  unfolding accept
  accept-Runs i data_ out q s = elim (Bool-cases (leb (length data_ + header_size) out.room)) [
    | inl fits ↦ rw fits (process_packet-Runs out i data_ [] q s (leb→le _ _ fits))
    | inr large ↦
        (went out (record { id = i; data_ = data_; injected_by = [] } ∷ q) s, rw large refl, refl)
  ]

  drain-Runs :
      (q : List Packet) (out : Output) (s : σ) → Runs (capacity out) (drain is incoming c t q out s)
  unfolding drain
  drain-Runs [] out s = (went out [] s, refl, refl)
  drain-Runs (p ∷ q) out s = elim (Bool-cases (leb (length p.data_ + header_size) out.room)) [
    | inl fits ↦
        let (u, e, k) =
          process_packet-Runs out p.id p.data_ p.injected_by (p ∷ q) s (leb→le _ _ fits) in
        rw (fits, e)
          (and_then-Runs (capacity out) (λ out' _ s'. drain is incoming c t q out' s') u
            (λ out' _ s'. drain-Runs q out' s') k)
    | inr large ↦ (went out (p ∷ q) s, rw large refl, refl)
  ]

-- Every turn that goes on leaves less than it found.
abbrev Shorter : Bytes → Next → Type 0
Shorter input done = Unit {0}
Shorter input (skip rest) = length rest < length input
Shorter input (packet i d rest) = length rest < length input

next_packet_total : (input : Bytes) → (n : Next) × (next_packet input ≡ some n) × Shorter input n
unfolding next_packet
next_packet_total input = elim (Bool-cases (ltb (length input) header_size)) [
  | inl short ↦ (done, rw short, tt)
  | inr long ↦
      let input' = drop header_size input in
      let n = size (header_of (take header_size input)) in
      elim (Bool-cases (ltb (length input') n)) [
        | inl torn ↦ (
          skip input',
          ground (arith, length-drop header_size input),
          ground (arith, length-drop header_size input),
        )
        | inr whole ↦ (
          packet (id (header_of (take header_size input))) (take n input') (drop n input'),
          ground (arith, length-drop header_size input),
          ground (arith, length-drop header_size input, length-drop n input'),
        )
      ]
]

module _ {σ : Type 0} (is : List (Interpreter σ)) (incoming : Bool) (c t : ℕ) where
  -- The rule for one turn, from the rule `ih` for the turns that follow.
  turn-Runs :
      (fuel : ℕ)
      (ih : (input : Bytes) (out : Output) (q : List Packet) (s : σ)
        → length input < fuel
        → Runs is incoming c t (capacity out) (read_packets is incoming c t fuel input out q s))
      (input : Bytes) (out : Output) (q : List Packet) (s : σ)
      → length input < suc fuel
      → (n : Next) × (next_packet input ≡ some n) × Shorter input n
      → Runs is incoming c t (capacity out) (read_packets is incoming c t (suc fuel) input out q s)
  unfolding read_packets
  turn-Runs fuel ih input out q s h (done, e, _) = (went out q s, rw e refl, refl)
  turn-Runs fuel ih input out q s h (skip rest, e, shorter) = rw e (ih rest out q s (omega arith))
  turn-Runs fuel ih input out q s h (packet i d rest, e, shorter) =
      let (u, accepted, k) = accept-Runs is incoming c t i d out q s in
      rw (e, accepted)
        (and_then-Runs is incoming c t (capacity out) (read_packets is incoming c t fuel rest) u
          (λ out' q' s'. ih rest out' q' s' (omega arith)) k)

  read_packets-Runs :
      (fuel : ℕ) (input : Bytes) (out : Output) (q : List Packet) (s : σ)
      → length input < fuel
      → Runs is incoming c t (capacity out) (read_packets is incoming c t fuel input out q s)
  read_packets-Runs zero input out q s h = absurd (omega arith)
  read_packets-Runs (suc fuel) input out q s h =
      turn-Runs fuel (read_packets-Runs fuel) input out q s h (next_packet_total input)

-- What is handed back is no longer than the buffer; nothing is handed back where an interpreter throws.
abbrev pub IsHandedBack : {σ : Type 0} → List (Interpreter σ) → ℕ → Option Bytes → Type 0
IsHandedBack is buffer none = Raises is
IsHandedBack is buffer (some result) = length result ≤ buffer

finished-IsHandedBack :
    {σ : Type 0} (is : List (Interpreter σ)) (incoming : Bool) (c k : ℕ) (q : PacketQueue)
    (buffer : ℕ) (u : Turn σ)
    → Holds is incoming c k buffer u
    → IsHandedBack is buffer (finished q buffer u).0
finished-IsHandedBack is incoming c k q buffer (went out pending s) h = omega (arith, h)
finished-IsHandedBack is incoming c k q buffer (thrown pending s) h = h

-- The loops end, no read or write leaves its span, and the result is no longer than the buffer:
-- than the largest output size asked for so far. The call is left by an error only if an interpreter
-- throws it.
pub process_buffer_total :
    {σ : Type 0} (is : List (Interpreter σ)) (q : PacketQueue) (input : Bytes)
    (counter timestamp output_size : ℕ) (s : σ)
    → (result : Option Bytes) × (q' : PacketQueue) × (s' : σ) × (process_buffer is q input counter
          timestamp output_size s
        ≡ some (result, q', s'))
      × IsHandedBack is (grown q.buffer_size output_size) result
unfolding process_buffer
process_buffer_total is q input counter timestamp output_size s =
    let b = grown q.buffer_size output_size in
    let d = q.direction in
    let (u, e, k) =
      read_packets-Runs is d counter timestamp (length input + 1) input
        (record { written = []; room = b }) q.queue_ s (omega arith) in
    let (v, e', k') =
      and_then-Runs is d counter timestamp b
        (λ out pending s. drain is d counter timestamp pending out s) u
        (λ out pending s. drain-Runs is d counter timestamp pending out s)
        (same_capacity is d counter timestamp b (0 + b) u (omega arith) k) in
    (
      (finished q b v).0,
      (finished q b v).1,
      (finished q b v).2,
      rw (e, e') refl,
      finished-IsHandedBack is d counter timestamp q b v k',
    )
