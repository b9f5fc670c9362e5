-- ===== src/Signup.antt =====
pub mod Env
pub mod Captcha
pub mod Verifier
pub mod New
pub mod Service
pub mod Audit
pub mod Target
pub mod Status
-- The package `signup` and the signup service.
pub mod Poll
pub mod Event
