-- ===== src/Sending.antt =====
-- pkg/sendMessage/service: what is checked and in which order things are sent; the protobuf
-- messages themselves are values of the whatsmeow library.
pub mod Media
pub mod Safe
pub mod Buttons
pub mod Recipients
pub mod Registered
pub mod Retry
pub mod Costs
pub mod Once
pub mod Album
pub mod Counting
pub mod Complete
mod Tests
