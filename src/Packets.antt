-- ===== src/Packets.antt =====
-- core/src/packet_queue.cpp and the trigger of core/src/addon/modules/packet.cpp.
-- A byte is a number below 256. The packets' memory is a list of bytes; `none` stands for a read or
-- a write outside a span, or for a loop that goes on for more rounds than it has bytes.
pub mod Header
pub mod Trigger
pub mod Queue
pub mod Safety
pub mod Stream
mod Tests
