-- ===== src/Runtime.antt =====
-- lib/challenge/*: the runtimes, each as the IssueChallenge and Verify that it fills in.
pub mod Page
pub mod Http
pub mod Dnsbl
pub mod Js
pub mod Preload
pub mod Private
