-- ===== src/Hooklib/X86.antt =====
-- core/src/hooklib/x86.cpp: the lengths of x86 instructions, written jumps and followed jumps.
-- `Mem` is the code as the functions see it, a byte for each address. A cursor `it` is an address;
-- moving it forward does not wrap, since the source never leaves the mapped code.
pub mod Opcode
pub mod Prefix
pub mod Length
pub mod Jump
pub mod Follow
pub mod Hotpatch
pub mod Code
mod Tests
