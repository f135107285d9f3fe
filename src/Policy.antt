-- ===== src/Policy.antt =====
-- lib/policy: the networks and the policies that a server starts from.
pub mod Networks
pub mod Radb
pub mod Snippets
