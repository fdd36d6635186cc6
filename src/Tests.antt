-- ===== src/Tests.antt =====
-- Runs of the development at concrete inputs, and what they run on.
pub mod Fixtures
mod Reliability
mod Identity
mod Pipeline
mod Accounts
mod Policy
mod Extraction
mod Services
mod Feedback
mod Chunking
