-- ===== src/Controller.antt =====
-- The HTTP handlers, pkg/controller.
pub mod Answer
pub mod Signup
pub mod Usernames
