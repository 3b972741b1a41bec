-- ===== src/Auth.antt =====
-- app/auth/applicant.py: invitations, one-time codes and applicant sessions.
mod Types
mod Repository
mod Invitations
mod Logins
pub mod Identities
pub mod Codes
pub mod Delivery
pub mod Sessions
mod Tests
pub use Types.*
unfoldable pub use Repository.*
unfoldable pub use Invitations.*
unfoldable pub use Logins.*
