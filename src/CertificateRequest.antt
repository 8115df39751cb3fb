-- ===== src/CertificateRequest.antt =====
-- internal/domain/certificaterequest: what a user asked to be issued or renewed.
pub mod Status
pub mod State
pub mod Input
pub mod Commands
pub mod Normal
pub mod Once
pub mod Progress
