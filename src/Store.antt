-- ===== src/Store.antt =====
-- app/documents/store.py and the keyring of app/documents/keys.py.
mod Types
mod Objects
mod Envelopes
pub mod RoundTrip
pub mod Ingestion
pub mod Tests
pub use Types.*
unfoldable pub use Objects.*
unfoldable pub use Envelopes.*
