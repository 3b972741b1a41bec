-- ===== src/Finalize.antt =====
-- app/applicant/finalize.py: final submissions and their reopening.
mod Types
mod Manifests
mod Submission
pub mod Parts
pub mod Readiness
pub mod Submitting
pub mod Locking
pub mod Freezing
pub mod Reopening
mod Tests
pub use Types.*
unfoldable pub use Manifests.*
unfoldable pub use Submission.*
