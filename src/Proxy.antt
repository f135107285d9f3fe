-- ===== src/Proxy.antt =====
-- lib/settings: backends and binds as far as they act on requests, and how a listener is named.
pub mod Director
pub mod Bind
pub mod Transport
