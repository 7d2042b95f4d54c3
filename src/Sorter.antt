-- ===== src/Sorter.antt =====
-- The in-place sorters of FOSketch/Enclave/OPrimitive.h.
pub mod Order
pub mod Exchange
pub mod Bytes
pub mod Sorted
pub mod Taken
pub mod Power
pub mod Bitonic
pub mod OddEven
