-- ===== src/Scanner.antt =====
-- core/src/scanner.hpp: `signature`, a parser over a table; core/src/scanner.cpp: `match` and `scan`.
pub mod Signature
pub mod Match
mod Tests
