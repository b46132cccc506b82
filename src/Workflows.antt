-- ===== src/Workflows.antt =====
-- src/aieos/platform/workflows: the intents to start a review workflow and to signal it.
pub mod Intents
pub mod Tables
pub mod Dispatch
mod Examples
