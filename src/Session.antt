-- ===== src/Session.antt =====
-- porte/session: the credential, its two transports and the middleware that verifies it.
pub mod Http
pub mod Manager
pub mod Serving
pub mod Lifecycle
pub mod Issuing
mod Tests
