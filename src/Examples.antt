-- ===== src/Examples.antt =====
-- The theorems at concrete inputs, and tests of the definitions.
mod Policies
mod People
mod Answers
mod Queries
mod Pages
mod Values
mod Sorts
mod Server
mod Views
mod Memory
mod Stored
mod Updates
mod Settings
mod Downloads
