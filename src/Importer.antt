-- ===== src/Importer.antt =====
-- app/importer: the pure rules by which an import reads the register, finds the folder of each
-- applicant and suggests a classification.
pub mod Keys
pub mod Matching
pub mod Register
pub mod Classification
mod Tests
