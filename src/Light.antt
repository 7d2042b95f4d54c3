-- ===== src/Light.antt =====
-- The light part of the sketch: an array of counters of a byte each, in FOSketch/Enclave/FOSketch.h.
pub mod Pass
pub mod Gather
pub mod Ascending
pub mod Groups
pub mod Sorts
pub mod Once
pub mod Update
pub mod Blocks
pub mod Lines
