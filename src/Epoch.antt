-- ===== src/Epoch.antt =====
-- The pieces of `OPrepareData` of FOSketch/Enclave/FOSketch.h, which starts an epoch from the two sketches
-- that it receives, and the answers that it prepares.
pub mod Receive
pub mod Counters
pub mod Hitters
