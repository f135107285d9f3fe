-- ===== src/Startup.antt =====
-- lib/state.go: how NewState sets a server up from a policy, and Close.
pub mod Building
pub mod Closing
pub mod Conditions
pub mod Loading
pub mod Opening
