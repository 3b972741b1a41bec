-- ===== src/Lib.antt =====
-- The applications of the EHF fellowship: the applicant's side of the program in app/, and the
-- reviewers' side where it decides on it.
--
-- An applicant signs in (app/auth), saves the sections of an application as drafts, confirms each
-- section, uploads documents, and submits. A submission is bound to a manifest of all of it and
-- locks the drafts. Reviewers read documents, accept or reject them, approve a submission or return
-- it; administrators reopen a section or a document slot, which supersedes the submission.
--
-- Each module names the code that it follows; functions and fields keep their Python names.
--   Prelude        helpers: Python's dict, set, str and list operations, equality, and the actions
--                  that stand for methods. An action returns its result or its exception together
--                  with the state, since what was written before a raise stays written.
--   Drafts         app/applicant/drafts.py, InMemoryDraftRepository
--   Confirmations  app/applicant/confirmations.py, SectionConfirmationService
--   Store          app/documents/store.py, EncryptedObjectStore; the keyring of
--                  app/documents/keys.py and the verdict of app/documents/malware.py
--   Documents      app/applicant/documents.py: DocumentSlotRepository is Slots, and
--                  ApplicantDocumentService is Service, over Slots and the object store
--   Finalize       app/applicant/finalize.py, FinalizationService, over Drafts, Confirmations and
--                  Documents
--   Auth           app/auth/applicant.py, the repository and ApplicantAuthService
--   RateLimit      app/auth/rate_limit.py
--   Approval       app/applicant/approval.py, ApplicantApprovalService
--   Access         app/applicant/access.py, the repository and the service as one
--   Identity       app/identity.py, the resolver of internal users, over Preferences' identities
--   Preferences    app/preferences.py, the records with their checks and
--                  InMemoryPreferenceRepository
--   Calls          app/calls.py, the records of fellowship calls and InMemoryCallCatalog
--   Migrations     app/migrations.py, the history and the transaction, over a Server that answers
--   Evaluation     app/evaluation_groups.py, the grouping of applicants by their ballots
--   Importer       app/importer: Keys is normalize.py, Matching is match.py, Register is
--                  register.py, Classification is classify.py and documents/classification.py
--   Json           the values that Python reads from JSON, and the conversions that the code
--                  calls on them
--   Publications   app/applicant/publications.py: Doi and Canonical normalize, Receipts sign,
--                  Metadata reads a record of Crossref, Lookup is the bounded cache of lookups
--   Fields         app/applicant/fields.py and app/applicant/contribution.py: the inventory of
--                  sections, the normalization and validation of their fields, and the upgrading
--                  of older drafts
--   Projection     app/applicant/projection.py, what a session sees of its own application
--   Review         app/applicant/review.py, the applicant's own view and saves of a section, over
--                  Drafts, Confirmations, Fields and Publications
--
-- Conventions. Identifiers are numbers, which the code only compares; times are numbers of seconds.
-- What a call draws at random, reads from the clock or receives from outside (the validator of
-- PDFs, the scanner, the file system's answer to a write) is an argument of the call. SHA-256,
-- HMAC, AES-GCM and base64 are parameters, and so are the tables of Unicode (casefold, NFKD), the
-- readers of numbers, dates, addresses and UUIDs, and the calls of Crossref and of the identity
-- endpoint. Assumed are the cipher's round trip, the lengths of digests and of their base64, that
-- casefolding twice is casefolding once, and that digits have values below ten, each in the
-- theorems that say so. A key version is packed into two bytes, and one that does not fit is an
-- error of its own. A statement of a migration may fail after a part of its effects, and none ends
-- the transaction itself.
-- Python's numbers have no bound, and the counters here are natural numbers without a bound. Every
-- loop runs over a list but for the eviction of the cache of lookups, which runs on as much fuel as
-- the cache has entries.
--
-- Not modelled: HTTP routes and pages, the SQL adapters and the database, the import run with its
-- reading of folders, the extraction and reconciliation of publications by the importer, and the
-- readers that only sort or format; of the store, file modes and the clean-up of temporary files;
-- of the fields, `field_metadata` and `derive_ages`; of the review, `metadata`.
-- Concurrency: the repositories are used by one request at a time, so a history is a sequence of
-- calls. The cache of lookups is shared by threads, and its steps are the locked parts of a lookup
-- in any order.
pub mod Prelude
pub mod Drafts
pub mod Store
pub mod Documents
pub mod Confirmations
pub mod Finalize
pub mod Auth
pub mod RateLimit
pub mod Approval
pub mod Access
pub mod Migrations
pub mod Evaluation
pub mod Importer
pub mod Json
pub mod Publications
pub mod Fields
pub mod Projection
pub mod Review
pub mod Calls
pub mod Preferences
pub mod Identity
