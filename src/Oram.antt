-- ===== src/Oram.antt =====
-- The path ORAM of FOSketch/Enclave/FOSketch.h, `class FOSketch`: a tree of buckets whose blocks move
-- through a stash.
pub mod Block
pub mod Sketch
pub mod Stash
pub mod Read
pub mod Evict
pub mod Tree
pub mod Compact
pub mod Access
pub mod Query
pub mod Setup
