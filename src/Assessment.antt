-- ===== src/Assessment.antt =====
-- src/aieos/domains/assessment/domain: the deterministic evaluation of a submission, and the
-- classroom assessments of a teacher.
pub mod Vocabulary
pub mod Objectives
pub mod Questions
pub mod Items
pub mod Answers
pub mod Evidence
pub mod Policy
pub mod Classroom
mod Examples
