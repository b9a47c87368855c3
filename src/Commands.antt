-- ===== src/Commands.antt =====
-- core/src/command_manager.cpp: the command line that addons, macros and the console share.
pub mod Names
pub mod Parse
pub mod Unescape
pub mod Arguments
pub mod Escape
pub mod Registry
pub mod Handle
mod Tests
