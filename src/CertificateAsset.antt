-- ===== src/CertificateAsset.antt =====
-- internal/domain/certificateasset: certificates as assets, with the versions that were issued.
pub mod State
pub mod Commands
pub mod History
pub mod Reissue
pub mod Reachable
