-- ===== src/Console.antt =====
-- console/: the operators' side of the program.
pub mod Candidate
pub mod Service
pub mod Curation
pub mod Simulate
pub mod SignedAuth
pub mod Server
