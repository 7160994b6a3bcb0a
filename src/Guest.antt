-- ===== src/Guest.antt =====
-- What a guest program sees of the host: its files in
-- crates/compatra-runtime/src/macos/guest_model/files.rs and its file descriptors in
-- macos/arch_arm64/runtime.rs.
pub mod Files
pub mod Access
pub mod Reading
pub mod Os
pub mod Descriptors
pub mod Backing
pub mod Closing
pub mod Live
pub mod Dangling
pub mod Opening
pub mod Duplicating
pub mod Streams
pub mod Calls
pub mod Duplicates
mod Examples
