-- ===== src/Loader/Images.antt =====
-- The registry of loaded images: crates/compatra-runtime/src/macos/loader/guest_images.rs.
pub mod Registry
pub mod Slide
pub mod Addresses
pub mod Loaded
mod Examples
