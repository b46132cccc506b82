-- ===== src/Content.antt =====
-- src/aieos/domains/content: versioned content, its review and its publication.
pub mod Vocabulary
pub mod Json
pub mod Review
pub mod Payload
pub mod Version
pub mod Database
pub mod Commands
mod Examples
