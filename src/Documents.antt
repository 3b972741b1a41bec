-- ===== src/Documents.antt =====
-- app/applicant/documents.py: the repository of document slots and their versions, and the service.
-- Identifiers are numbers, which are only compared; those that `uuid4` draws are arguments.
mod Types
mod Repository
mod Review
mod Reading
mod Serving
mod Uploads
pub mod Invariant
pub mod History
pub mod Accounting
pub mod Uploading
pub mod Visibility
pub mod Tests
pub use Types.*
unfoldable pub use Repository.*
unfoldable pub use Review.*
unfoldable pub use Reading.*
unfoldable pub use Serving.*
unfoldable pub use Uploads.*
