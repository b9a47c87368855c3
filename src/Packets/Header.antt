-- ===== src/Packets/Header.antt =====
-- core/src/packet_queue.cpp: `packet_header`, a 16-bit word of nine bits of id and seven bits of
-- size in units of four bytes, and a 16-bit counter. `size_t` is 32 bits wide, as the program is.
use fenestra_voli_edition.Base.{
  ℕ, ◌+◌, ◌-◌, ◌*◌, ◌/◌, ◌%◌, ◌^◌, ◌≤◌, ◌<◌, ◌≡◌, List, [], ◌∷◌, arith,
}

abbrev pub Bytes : Type 0
Bytes = List ℕ

abbrev pub size_t_mod : ℕ
size_t_mod = 2 ^ 32

-- `sizeof(packet_header)`
abbrev pub header_size : ℕ
header_size = 4

pub record PacketHeader : Type 0 where
  pub packed_id_size : ℕ
  pub counter : ℕ

-- `id & 0x1FF | (size + sizeof(packet_header)) << 7 & 0xFE00`: the masks share no bit, so the two
-- parts add up. The sum fits the 16-bit word.
unfoldable pub packet_header : ℕ → ℕ → ℕ → PacketHeader
packet_header id size counter = record {
  packed_id_size = id % 2 ^ 9 + (size + header_size) * 2 ^ 7 / 2 ^ 9 % 2 ^ 7 * 2 ^ 9;
  counter = counter;
}

-- `(m_packed_id_size >> 7 & 0x1FC) - sizeof(packet_header)`, an unsigned difference.
unfoldable pub size : PacketHeader → ℕ
size h = (h.packed_id_size / 2 ^ 7 / 2 ^ 2 % 2 ^ 7 * 2 ^ 2 + size_t_mod - header_size) % size_t_mod

-- `m_packed_id_size & 0x1FF`
unfoldable pub id : PacketHeader → ℕ
id h = h.packed_id_size % 2 ^ 9

-- The header's bytes in memory, as `std::as_bytes` shows them.
unfoldable pub header_bytes : PacketHeader → Bytes
header_bytes h =
    h.packed_id_size % 256
    ∷ h.packed_id_size / 256 % 256
    ∷ h.counter % 256
    ∷ h.counter / 256 % 256
    ∷ []

-- A packet that the header can describe: its data fills whole units of four bytes.
pub record Fits (id_ size_ : ℕ) : Type 0 where
  pub id_lt : id_ < 512
  pub size_le : size_ ≤ 504
  pub aligned : size_ % 4 ≡ 0

-- The fields of a header are read back as they were written, and the word fits its 16 bits.
pub packet_header_fields :
    (i n c : ℕ)
    → Fits i n
    → (id (packet_header i n c) ≡ i)
      × (size (packet_header i n c) ≡ n)
      × ((packet_header i n c).packed_id_size < 2 ^ 16)
unfolding packet_header size id
packet_header_fields i n c f = omega arith

-- An unaligned size loses its remainder.
pub packet_header_rounds_down : (i n c : ℕ) → n ≤ 507 → size (packet_header i n c) ≡ n / 4 * 4
unfolding packet_header size
packet_header_rounds_down i n c h = omega arith
