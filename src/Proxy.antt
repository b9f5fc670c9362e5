-- ===== src/Proxy.antt =====
-- The API proxy, pkg/proxy.
pub mod Env
pub mod Members
pub mod Lister
pub mod Access
pub mod Paths
pub mod Request
pub mod Answer
pub mod Headers
pub mod Bearer
pub mod Guard
pub mod Cors
pub mod Sso
