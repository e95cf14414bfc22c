-- ===== src/Authz.antt =====
-- The authorization policies of internal/authz. Each is a pure function of the verified principal and of
-- the subject; a child models each policy and says what it decides.
pub mod Roles
pub mod Approval
pub mod Adjudication
pub mod Evidence
