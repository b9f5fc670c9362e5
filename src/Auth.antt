-- ===== src/Auth.antt =====
-- Access tokens: pkg/auth, and how a request carries them.
pub mod Keys
pub mod Parser
pub mod Default
pub mod Middleware
