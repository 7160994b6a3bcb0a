-- ===== src/Loader/Library.antt =====
-- Guest libraries: crates/compatra-runtime/src/macos/loader/guest_libraries.rs.
pub mod Range
pub mod RangeLaws
pub mod Keys
pub mod Image
pub mod Reference
pub mod Set
pub mod Specs
pub mod Placement
pub mod LinkRule
pub mod Layout
pub mod Exports
pub mod Complete
pub mod Resolution
pub mod Bindings
pub mod BindingLaws
pub mod Extending
pub mod Extension
pub mod Mapping
pub mod Examples
