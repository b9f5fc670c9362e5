-- ===== src/Verification.antt =====
-- pkg/verification/service/verification_service.go: phone verification and activation codes.
-- What the service calls and does not implement is `Env`; logging is left out.
pub mod Env
pub mod Phone
pub mod Sender
pub mod Verify
pub mod Code
pub mod Init
pub mod Activation
