-- ===== src/Packets/Queue.antt =====
-- core/src/packet_queue.cpp: `packet_queue`. The messages of `core::error` are left out.
-- `σ` is the state of the Lua code that `trigger_packet` runs.
use fenestra_voli_edition.Base.{
  ℕ, zero, suc, ◌+◌, ◌-◌, ◌*◌, Bool, Option, none, some, List, [], ◌∷◌, ◌++◌, leb, ltb,
  if◌then◌else◌, length, take, drop, get_or,
}
use fenestra_voli_edition.Packets.Header.{
  Bytes, PacketHeader, packet_header, header_bytes, header_size, size, id,
}
use fenestra_voli_edition.Packets.Trigger.{
  Interpreter, PacketResult, block, unchanged, modified, trigger_packet,
}

pub record Packet : Type 0 where
  pub id : ℕ
  pub data_ : Bytes
  pub injected_by : Bytes

-- The part of the output buffer that is written, and the size of the span that is left.
pub record Output : Type 0 where
  pub written : Bytes
  pub room : ℕ

infixl 5 ◌>>=◌
abbrev pub ◌>>=◌ : {A B : Type 0} → Option A → (A → Option B) → Option B
none >>= f = none
some a >>= f = f a

-- `read`: a span of `n` bytes off the front.
unfoldable pub read : Bytes → ℕ → Option (Bytes × Bytes)
read input n = if leb n (length input) then some (take n input, drop n input) else none

-- `read<packet_header>`, from the four bytes.
abbrev pub header_of : Bytes → PacketHeader
header_of b = record {
  packed_id_size = get_or b 0 0 + get_or b 1 0 * 256;
  counter = get_or b 2 0 + get_or b 3 0 * 256;
}

-- `write`: a copy to the front of the span, which then starts behind it.
unfoldable pub write : Output → Bytes → Option Output
write out value =
    if leb (length value) out.room
    then some (record { written = out.written ++ value; room = out.room - length value })
    else none

-- The two writes of a packet.
unfoldable pub write_packet : Output → ℕ → ℕ → Bytes → Option Output
unfolding write
write_packet out id counter data_ = do
  out' ← write out (header_bytes (packet_header id (length data_) counter))
  write out' data_

-- One turn of the first loop, up to the test on the output: the rest of the input, and the packet.
pub data Next : Type 0 where
  done : Next
  skip : Bytes → Next
  packet : ℕ → Bytes → Bytes → Next

-- A header whose size passes the end of the input is dropped alone.
unfoldable pub next_packet : Bytes → Option Next
unfolding read
next_packet input = if ltb (length input) header_size then some done else do
  (bytes, input') ← read input header_size
  let header = header_of bytes
  if ltb (length input') (size header)
      then some (skip input')
      else do (data_, rest) ← read input' (size header); some (packet (id header) data_ rest)

-- The state in a loop: with the output, or left by a `lua::error`; with `m_queue` and the Lua state.
pub data Turn (σ : Type 0) : Type 0 where
  went : Output → List Packet → σ → Turn σ
  thrown : List Packet → σ → Turn σ

unfoldable pub and_then :
    {σ : Type 0} → (Output → List Packet → σ → Option (Turn σ)) → Turn σ → Option (Turn σ)
and_then f (went out queue s) = f out queue s
and_then f (thrown queue s) = some (thrown queue s)

module _ {σ : Type 0} (interpreters : List (Interpreter σ)) (incoming : Bool)
    (counter timestamp : ℕ) where
  -- `process_packet`, once the interpreters have answered.
  unfoldable pub emit : Output → ℕ → Bytes → PacketResult → Option Output
  emit out id data_ block = some out
  emit out id data_ unchanged = write_packet out id counter data_
  emit out id data_ (modified result_id result_data) =
      if ltb out.room (length result_data + header_size)
      then write_packet out id counter data_
      else write_packet out result_id counter result_data

  -- A call for a packet while `m_queue` is `queue`.
  unfoldable pub process_packet : Output → ℕ → Bytes → Bytes → List Packet → σ → Option (Turn σ)
  process_packet out id data_ injected_by queue s =
      let (result, s') =
        trigger_packet interpreters incoming id counter timestamp data_ injected_by s in
      elim result [
        | none ↦ some (thrown queue s')
        | some r ↦ do out' ← emit out id data_ r; some (went out' queue s')
      ]

  -- The body of the first loop: a packet that does not fit goes to the front of the queue.
  unfoldable pub accept : ℕ → Bytes → Output → List Packet → σ → Option (Turn σ)
  accept id data_ out queue s =
      if leb (length data_ + header_size) out.room
      then process_packet out id data_ [] queue s
      else some (went out (record { id = id; data_ = data_; injected_by = [] } ∷ queue) s)

  -- The first loop. Each turn takes a header off the input, so its length is fuel enough.
  unfoldable pub read_packets : ℕ → Bytes → Output → List Packet → σ → Option (Turn σ)
  read_packets zero input out queue s = none
  read_packets (suc fuel) input out queue s = next_packet input >>= elim [
    | done ↦ some (went out queue s)
    | skip rest ↦ read_packets fuel rest out queue s
    | packet id data_ rest ↦ accept id data_ out queue s >>= and_then (read_packets fuel rest)
  ]

  -- The second loop, with `peek_size` in its test. A packet leaves the queue behind its call.
  unfoldable pub drain : List Packet → Output → σ → Option (Turn σ)
  drain [] out s = some (went out [] s)
  drain (p ∷ queue) out s =
      let turn =
        process_packet out p.id p.data_ p.injected_by (p ∷ queue) s
        >>= and_then (λ out' _ s'. drain queue out' s') in
      if leb (length p.data_ + header_size) out.room then turn else some (went out (p ∷ queue) s)

pub record PacketQueue : Type 0 where
  pub direction : Bool
  pub queue_ : List Packet
  pub buffer_size : ℕ

-- `packet_queue::queue`
unfoldable pub queue : PacketQueue → ℕ → Bytes → Bytes → PacketQueue
queue q id data_ injected_by = record q {
  queue_ = q.queue_ ++ record { id = id; data_ = data_; injected_by = injected_by } ∷ [];
}

-- The size of the output buffer after the first `if`.
abbrev pub grown : ℕ → ℕ → ℕ
grown buffer_size output_size = if ltb buffer_size output_size then output_size else buffer_size

-- What is handed back, the new queue and the new Lua state.
-- With the bytes that are handed back, or none where a `lua::error` is thrown.
abbrev pub finished : {σ : Type 0} → PacketQueue → ℕ → Turn σ → Option Bytes × PacketQueue × σ
finished q buffer (went out pending s) =
    (some out.written, record q { queue_ = pending; buffer_size = buffer }, s)
finished q buffer (thrown pending s) =
    (none, record q { queue_ = pending; buffer_size = buffer }, s)

unfoldable pub process_buffer :
    {σ : Type 0}
    → List (Interpreter σ)
    → PacketQueue
    → Bytes
    → ℕ
    → ℕ
    → ℕ
    → σ
    → Option (Option Bytes × PacketQueue × σ)
process_buffer is q input counter timestamp output_size s =
    let buffer = grown q.buffer_size output_size in
    let out : Output = record { written = []; room = buffer } in
    do
      t ← read_packets is q.direction counter timestamp (length input + 1) input out q.queue_ s
      t ← and_then (λ out pending s. drain is q.direction counter timestamp pending out s) t
      some (finished q buffer t)
