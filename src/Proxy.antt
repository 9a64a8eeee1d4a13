-- ===== src/Proxy.antt =====
-- src/proxy.rs, in parts.
pub mod Headers
pub mod Target
pub mod World
pub mod Serving
pub mod Attempt
pub mod Request
pub mod Rounds
pub mod Loop
pub mod Rule
pub mod Access
pub mod Dropped
mod Tests
