-- ===== src/Learning.antt =====
-- src/aieos/domains/learning/domain: attempts of learners, their responses and their submissions.
pub mod Vocabulary
pub mod ResponseItem
pub mod Attempt
pub mod Snapshot
pub mod Submission
pub mod Submit
mod Examples
