-- ===== src/Loader/Parser.antt =====
-- crates/compatra-runtime/src/macos/loader/parser.rs, from the loop over the load commands to the parsed
-- binary.
pub mod Commands
pub mod Binary
pub mod Fat
pub mod Parse
pub mod Termination
pub mod FatChoice
pub mod CommandBounds
pub mod Ranges
pub mod BuildResult
pub mod Build
pub mod Relocations
pub mod RelocationLaws
pub mod Queries
pub mod PageZero
pub mod Symbols
pub mod Imports
pub mod Defined
pub mod Resolve
