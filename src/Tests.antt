-- ===== src/Tests.antt =====
-- Runs of the definitions on small inputs, and each theorem at an input that meets its hypotheses.
mod Format
mod Rank
mod Admission
mod Log
mod Wire
pub mod Shelf
mod Session
mod Transfer
