-- ===== src/Namespaces.antt =====
-- The reset of a user's namespaces: pkg/namespaces and its controller.
pub mod Reset
pub mod Respond
