-- ===== src/Tests.antt =====
-- A small cluster that meets the assumptions, and the theorems at concrete requests.
mod World
mod Insertion
mod Service
mod Signup
mod Proxy
mod Lister
mod NewUser
mod Auth
mod Controller
mod Namespaces
mod Verification
mod Activation
mod Sender
mod Answer
mod Sso
