-- ===== src/Tests.antt =====
-- Runs on concrete inputs.
mod Sorting
mod Path
mod Distribution
mod Opening
mod Compact
mod Query
mod Moves
mod Queueing
mod Locking
mod Messages
mod Merging
mod Tables
mod Lines
mod Epochs
