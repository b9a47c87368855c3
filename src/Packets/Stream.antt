-- ===== src/Packets/Stream.antt =====
-- core/src/packet_queue.cpp: what comes out, as lists of packets.
use mathlib.Core.List.{append-nil, append_assoc, reverse, reverse-cons}
use fenestra_voli_edition.Base.{
  ℕ, zero, suc, ◌+◌, ◌-◌, ◌≤◌, ◌<◌, ◌≡◌, refl, sym, ap, ◌∙◌, Bool, some, List, [], ◌∷◌, ◌++◌, arith,
  leb, if◌then◌else◌, length, length-append, take-append, drop-append, le→leb, inl, inr, Bool-cases,
  leb→le,
}
use fenestra_voli_edition.Packets.Header.{
  Bytes, packet_header, header_bytes, header_size, size, id, Fits, packet_header_fields,
}
use fenestra_voli_edition.Packets.Trigger.{
  Interpreter, trigger_packet, AllSilent, trigger_packet_silent,
}
use fenestra_voli_edition.Packets.Queue.{
  Packet, Output, header_of, done, packet, next_packet, emit, process_packet, accept, read_packets,
  drain, PacketQueue, grown, process_buffer, went, and_then,
}
use fenestra_voli_edition.Packets.Safety.{write_packet-some}

-- A packet as it stands in a buffer, and a row of packets.
abbrev pub packet_bytes : ℕ → Packet → Bytes
packet_bytes counter p = header_bytes (packet_header p.id (length p.data_) counter) ++ p.data_

abbrev pub encode : ℕ → List Packet → Bytes
encode counter [] = []
encode counter (p ∷ ps) = packet_bytes counter p ++ encode counter ps

abbrev pub size_of : Packet → ℕ
size_of p = length p.data_ + header_size

abbrev pub total : List Packet → ℕ
total [] = 0
total (p ∷ ps) = size_of p + total ps

abbrev pub AllFit : List Packet → Type 0
AllFit [] = Unit {0}
AllFit (p ∷ ps) = Fits p.id (length p.data_) × AllFit ps

length-packet_bytes : (c : ℕ) (p : Packet) → length (packet_bytes c p) ≡ size_of p
unfolding header_bytes
length-packet_bytes c p = omega arith

pub length-encode : (c : ℕ) (ps : List Packet) → length (encode c ps) ≡ total ps
length-encode c [] = refl
length-encode c (p ∷ ps) = omega (
  arith,
  length-append {0} (packet_bytes c p) (encode c ps),
  length-packet_bytes c p,
  length-encode c ps,
)

encode-append : (c : ℕ) (ps qs : List Packet) → encode c (ps ++ qs) ≡ encode c ps ++ encode c qs
encode-append c [] qs = refl
encode-append c (p ∷ ps) qs =
    ap (◌++◌ (packet_bytes c p)) (encode-append c ps qs)
    ∙ sym (append_assoc (packet_bytes c p) (encode c ps) (encode c qs))

-- The header's four bytes give the header back.
header_of-header_bytes :
    (i n c : ℕ)
    → Fits i n
    → (size (header_of (header_bytes (packet_header i n c))) ≡ n)
      × (id (header_of (header_bytes (packet_header i n c))) ≡ i)
unfolding header_bytes size id
header_of-header_bytes i n c f = let h = packet_header_fields i n c f in omega arith

-- The first loop cuts a row of packets where it was put together.
next_packet_bytes :
    (c : ℕ) (p : Packet) (rest : Bytes)
    → Fits p.id (length p.data_)
    → next_packet (packet_bytes c p ++ rest) ≡ some (packet p.id p.data_ rest)
unfolding next_packet header_bytes
next_packet_bytes c p rest f =
    let h = packet_header p.id (length p.data_) c in
    let n = size (header_of (header_bytes h)) in
    let (sizes, ids) = header_of-header_bytes p.id (length p.data_) c f in
    ground (
      arith,
      length-append p.data_ rest,
      take-append p.data_ rest n sizes,
      drop-append p.data_ rest n sizes,
    )

next_packet-nil : next_packet [] ≡ some done
unfolding next_packet
next_packet-nil = refl

-- The output with the packets `ps` behind what was written.
abbrev extended : ℕ → Output → List Packet → Output
extended c out ps = record { written = out.written ++ encode c ps; room = out.room - total ps }

extended-nil : (c : ℕ) (out : Output) → extended c out [] ≡ out
extended-nil c out = ground (arith, append-nil out.written)

-- The output behind a packet that is written.
abbrev put_packet : ℕ → Output → Packet → Output
put_packet c out p = record {
  written = out.written ++ packet_bytes c p;
  room = out.room - size_of p;
}

extended-cons :
    (c : ℕ) (out : Output) (p : Packet) (ps : List Packet)
    → extended c (put_packet c out p) ps ≡ extended c out (p ∷ ps)
extended-cons c out p ps = ground (arith, append_assoc out.written (packet_bytes c p) (encode c ps))

-- The longest row at the front of the queue that fits, and what stays.
abbrev pub fitting : ℕ → List Packet → List Packet × List Packet
fitting room [] = ([], [])
fitting room (p ∷ ps) =
    let rest = fitting (room - size_of p) ps in
    if leb (size_of p) room then (p ∷ rest.0, rest.1) else ([], p ∷ ps)

module _ {σ : Type 0} (is : List (Interpreter σ)) (silent : AllSilent is) (incoming : Bool)
    (c t : ℕ) where
  process_packet_silent :
      (out : Output) (p : Packet) (by : Bytes) (q : List Packet) (s : σ)
      → size_of p ≤ out.room
      → (s' : σ) × (process_packet is incoming c t out p.id p.data_ by q s
          ≡ some (went (put_packet c out p) q s'))
  unfolding process_packet emit
  process_packet_silent out p by q s h = (
    (trigger_packet is incoming p.id c t p.data_ by s).1,
    rw
        (
          process_packet,
          trigger_packet_silent is incoming p.id c t p.data_ by s silent,
          write_packet-some out p.id c p.data_ h,
          append_assoc out.written (header_bytes (packet_header p.id (length p.data_) c)) p.data_,
        )
        refl,
  )

  accept_silent :
      (out : Output) (p : Packet) (q : List Packet) (s : σ)
      → size_of p ≤ out.room
      → (s' : σ) × (accept is incoming c t p.id p.data_ out q s
          ≡ some (went (put_packet c out p) q s'))
  unfolding accept
  accept_silent out p q s h =
      let (s', e) = process_packet_silent out p [] q s h in
      (s', rw (le→leb (size_of p) out.room h, e))

  read_packets_stream :
      (c₀ : ℕ) (ps : List Packet) (fuel : ℕ) (out : Output) (q : List Packet) (s : σ)
      → AllFit ps
      → total ps ≤ out.room
      → total ps < fuel
      → (s' : σ) × (read_packets is incoming c t fuel (encode c₀ ps) out q s
          ≡ some (went (extended c out ps) q s'))
  unfolding read_packets and_then
  read_packets_stream c₀ ps zero out q s f h k = absurd (omega arith)
  read_packets_stream c₀ [] (suc fuel) out q s f h k = (s, rw (next_packet-nil, extended-nil c out))
  read_packets_stream c₀ (p ∷ ps) (suc fuel) out q s f h k =
      let (s', e) = accept_silent out p q s (omega arith) in
      let (s'', e') =
        read_packets_stream c₀ ps fuel (put_packet c out p) q s' f.1 (omega arith) (omega arith) in
      (
        s'',
        rw (next_packet_bytes c₀ p (encode c₀ ps) f.0, e, e')
            (ap (λ o. some (went o q s'')) (extended-cons c out p ps)),
      )

  drain_silent :
      (ps : List Packet) (out : Output) (s : σ)
      → (s' : σ) × (drain is incoming c t ps out s
          ≡ some (went (extended c out (fitting out.room ps).0) (fitting out.room ps).1 s'))
  unfolding drain and_then
  drain_silent [] out s = (s, rw (extended-nil c out))
  drain_silent (p ∷ ps) out s = elim (Bool-cases (leb (size_of p) out.room)) [
    | inl fits ↦
        let (s', e) = process_packet_silent out p p.injected_by (p ∷ ps) s (leb→le _ _ fits) in
        let out' = put_packet c out p in
        let (s'', e') = drain_silent ps out' s' in
        (
          s'',
          rw (fits, e, e')
              (ap (λ o. some (went o (fitting out'.room ps).1 s''))
                (extended-cons c out p (fitting out'.room ps).0)),
        )
    | inr large ↦ (s, rw large (ap (λ o. some (went o (p ∷ ps) s)) (sym (extended-nil c out))))
  ]

-- With interpreters that keep silent, a row of packets that fits the output buffer, each with an id below
-- 512 and data of at most 504 bytes, whose number is a multiple of four, comes out as it went in, but for
-- the counter, and behind it the longest front of the queue for which there is room.
pub process_buffer_stream :
    {σ : Type 0} (is : List (Interpreter σ)) (q : PacketQueue) (c₀ : ℕ) (ps : List Packet)
    (counter timestamp output_size : ℕ) (s : σ)
    → AllSilent is
    → AllFit ps
    → total ps ≤ grown q.buffer_size output_size
    → let buffer = grown q.buffer_size output_size in
      let (sent, kept) = fitting (buffer - total ps) q.queue_ in
      (s' : σ) × (process_buffer is q (encode c₀ ps) counter timestamp output_size s
        ≡ some (
          some (encode counter (ps ++ sent)),
          record q { queue_ = kept; buffer_size = buffer },
          s',
        ))
unfolding process_buffer and_then
process_buffer_stream is q c₀ ps counter timestamp output_size s silent f h =
    let buffer = grown q.buffer_size output_size in
    let sent = (fitting (buffer - total ps) q.queue_).0 in
    let out : Output = record { written = []; room = buffer } in
    let (s', e) =
      read_packets_stream is silent q.direction counter timestamp c₀ ps (length (encode c₀ ps) + 1)
        out q.queue_ s f h (omega (arith, length-encode c₀ ps)) in
    let (s'', e') =
      drain_silent is silent q.direction counter timestamp q.queue_ (extended counter out ps) s' in
    (s'', rw (e, e') (rw (encode-append counter ps sent)))

-- None of the packets fits, nor was any of them injected.
abbrev pub AllDelayed : ℕ → List Packet → Type 0
AllDelayed room [] = Unit {0}
AllDelayed room (p ∷ ps) = (room < size_of p) × (p.injected_by ≡ []) × AllDelayed room ps

module _ {σ : Type 0} (is : List (Interpreter σ)) (incoming : Bool) (c t : ℕ) where
  accept_delayed :
      (out : Output) (p : Packet) (q : List Packet) (s : σ)
      → out.room < size_of p
      → p.injected_by ≡ []
      → accept is incoming c t p.id p.data_ out q s ≡ some (went out (p ∷ q) s)
  unfolding accept
  accept_delayed out p q s large client = ground arith

  -- Packets that come in one buffer with no room for them are queued in reverse, in front of those
  -- that waited there before.
  pub read_packets_reverses :
      (c₀ : ℕ) (ps : List Packet) (fuel : ℕ) (out : Output) (q : List Packet) (s : σ)
      → AllFit ps
      → AllDelayed out.room ps
      → total ps < fuel
      → read_packets is incoming c t fuel (encode c₀ ps) out q s
        ≡ some (went out (reverse ps ++ q) s)
  unfolding read_packets and_then
  read_packets_reverses c₀ ps zero out q s f d k = absurd (omega arith)
  read_packets_reverses c₀ [] (suc fuel) out q s f d k = rw next_packet-nil
  read_packets_reverses c₀ (p ∷ ps) (suc fuel) out q s f (large, client, d) k = rw (
    next_packet_bytes c₀ p (encode c₀ ps) f.0,
    accept_delayed out p q s large client,
    read_packets_reverses c₀ ps fuel out (p ∷ q) s f.1 d (omega arith),
    reverse-cons p ps,
    append_assoc (reverse ps) (p ∷ []) q,
  )
