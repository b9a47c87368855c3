-- ===== src/Packets/Tests.antt =====
-- core/src/packet_queue.cpp on concrete packets. The Lua state of the examples counts the calls.
use fenestra_voli_edition.Base.{ℕ, ◌+◌, ◌≡◌, refl, true, Option, none, some, [], ◌∷◌, arith}
use fenestra_voli_edition.Packets.Header.{Bytes, packet_header, header_bytes, size, id, Fits}
use fenestra_voli_edition.Packets.Trigger.{Interpreter, nil, other, error, trigger_packet}
use fenestra_voli_edition.Packets.Queue.{
  Packet, PacketQueue, next_packet, process_packet, emit, write_packet, accept, read_packets, drain,
  process_buffer, and_then,
}
use fenestra_voli_edition.Packets.Safety
use fenestra_voli_edition.Packets.Safety.{IsHandedBack}
use fenestra_voli_edition.Packets.Stream
use fenestra_voli_edition.Packets.Stream.{encode}

-- Interpreters that keep silent, block, and change the packet's id to 7.
abbrev listener : Interpreter ℕ
listener = some (λ c s. (nil, s + 1))

abbrev renamer : Interpreter ℕ
renamer = some (λ c s. (other 7 c.data_, s + 1))

abbrev login : Packet
login = record { id = 0x00A; data_ = 1 ∷ 2 ∷ 3 ∷ 4 ∷ []; injected_by = [] }

abbrev chat : Packet
chat = record { id = 0x0B5; data_ = 9 ∷ 9 ∷ 9 ∷ 9 ∷ 9 ∷ 9 ∷ 9 ∷ 9 ∷ []; injected_by = [] }

abbrev ping : Packet
ping = record { id = 0x015; data_ = []; injected_by = 97 ∷ [] }

abbrev idle : PacketQueue
idle = record { direction = true; queue_ = ping ∷ chat ∷ []; buffer_size = 16 }

login_bytes : encode 0x0102 (login ∷ []) ≡ 0x0A ∷ 0x04 ∷ 0x02 ∷ 0x01 ∷ 1 ∷ 2 ∷ 3 ∷ 4 ∷ []
unfolding header_bytes packet_header
login_bytes = refl

renamed :
    process_buffer (listener ∷ renamer ∷ []) idle (encode 5 (login ∷ [])) 6 0 16 0
    ≡ some (
      some (0x07 ∷ 0x04 ∷ 6 ∷ 0 ∷ 1 ∷ 2 ∷ 3 ∷ 4 ∷ 0x07 ∷ 0x02 ∷ 6 ∷ 0 ∷ []),
      record { direction = true; queue_ = chat ∷ []; buffer_size = 16 },
      4,
    )
unfolding process_buffer and_then read_packets drain accept process_packet emit trigger_packet
    write_packet next_packet header_bytes packet_header size id
renamed = refl

-- An interpreter that throws: nothing is handed back, and the queue is kept.
abbrev failing : Interpreter ℕ
failing = some (λ c s. (error, s + 1))

left :
    process_buffer (failing ∷ renamer ∷ []) idle (encode 5 (login ∷ [])) 6 0 16 0
    ≡ some (none, idle, 1)
unfolding process_buffer and_then read_packets drain accept process_packet emit trigger_packet
    write_packet next_packet header_bytes packet_header size id
left = refl

process_buffer_total_example :
    (result : Option Bytes) × (q' : PacketQueue) × (s' : ℕ) × (process_buffer
        (renamer ∷ [])
        idle
        (encode 5 (login ∷ chat ∷ []))
        6
        0
        20
        0
      ≡ some (result, q', s'))
    × IsHandedBack (renamer ∷ []) 20 result
process_buffer_total_example =
    Safety.process_buffer_total (renamer ∷ []) idle (encode 5 (login ∷ chat ∷ [])) 6 0 20 0

login_Fits : Fits 0x00A 4
login_Fits = record { id_lt = omega arith; size_le = omega arith; aligned = refl }

process_buffer_stream_example :
    (s' : ℕ) × (process_buffer (listener ∷ none ∷ []) idle (encode 5 (login ∷ [])) 6 0 16 0
      ≡ some (
        some (encode 6 (login ∷ ping ∷ [])),
        record { direction = true; queue_ = chat ∷ []; buffer_size = 16 },
        s',
      ))
process_buffer_stream_example =
    Stream.process_buffer_stream (listener ∷ none ∷ []) idle 5 (login ∷ []) 6 0 16 0
      ((λ c s. refl), (tt, tt)) (login_Fits, tt) (omega arith)
