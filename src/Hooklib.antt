-- ===== src/Hooklib.antt =====
-- core/src/hooklib: the part that reads and writes machine code.
pub mod X86
pub mod Trampoline
