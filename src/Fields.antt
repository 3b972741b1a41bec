-- ===== src/Fields.antt =====
-- app/applicant/fields.py and app/applicant/contribution.py: the inventory of the applicant's
-- fields, their validation and the upgrade of older drafts. What is Python's beyond its plain
-- texts, lists and dictionaries is an argument.
pub mod Inventory
pub mod Normalizing
pub mod Sections
pub mod Upgrading
pub mod Tests
