-- ===== src/Publications.antt =====
-- app/applicant/publications.py: canonical DOIs, receipts of lookups and the bounded cache of
-- Crossref metadata. Texts and bytes beyond Python's own methods are arguments.
pub mod Doi
pub mod Canonical
pub mod Receipts
pub mod Metadata
pub mod Lookup
mod Tests
