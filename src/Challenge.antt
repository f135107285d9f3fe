-- ===== src/Challenge.antt =====
-- lib/challenge: challenges, their tokens, and the data of a request.
pub mod Types
pub mod World
pub mod Registration
pub mod Data
pub mod Key
pub mod Token
pub mod State
pub mod Headers
pub mod Query
pub mod Create
pub mod Verify
pub mod Awaiter
