-- ===== src/Loader/Command.antt =====
-- The load commands of crates/compatra-runtime/src/macos/loader/command.rs: their data, the parse
-- functions of each kind, and `LoadCommand::parse` in `Dispatch`.
pub mod Thread
pub mod Types
pub mod Fixed
pub mod Names
pub mod Segments
pub mod Dispatch
pub mod NoPanic
pub mod NoPanicSegments
pub mod Parsed
pub mod RoundTrip
pub mod Encode
pub mod SectionCount
