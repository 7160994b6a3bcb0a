-- ===== src/Loader.antt =====
-- The Mach-O loader of crates/compatra-runtime/src/macos/loader. `Cursor` has its errors and its
-- reads, `Consts` the constants of consts.rs, `Header` header.rs, `Command` command.rs and `Parser`
-- parser.rs.
pub mod Cursor
pub mod Read
pub mod Consts
pub mod Command
pub mod Strings
pub mod Header
pub mod Parser
pub mod Library
pub mod Images
mod Examples
