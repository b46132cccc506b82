-- ===== src/Security.antt =====
-- src/aieos/platform/security: the kernel that decides what a principal may do.
pub mod Authorization
pub mod Audit
mod Examples
