-- ===== src/Lib.antt =====
-- FO-Sketch is a flow measurement that runs in an SGX enclave. It keeps its counters in a path ORAM,
-- so that the memory it touches says nothing of the flow that is asked for, and it merges and ranks
-- flows by sorting networks built from conditional moves.
--
-- Parts and files (paths of the source from the repository's root):
--
-- Prelude: tests, arrays as lists, counted loops.
--
-- Sorter: FOSketch/Enclave/OPrimitive.h. Sorter/Exchange has `OMove`, the conditional swaps and
-- `compare`; Sorter/Power has `greatestPowerOfTwoLessThan` and `testPo2` of Common/CommonUtil.h;
-- Sorter/Bitonic is `class BitonicSorter`, Sorter/OddEven is `class OddEvenMergeSorter`. The
-- comparator that the source passes as a function pointer is a record with the two laws of an order.
-- Sorter/Sorted has the two specifications: sorted, and rearranged within a range.
--
-- Counts: the distributions of flow sizes, `OCountDist`, `OItemCountDist_ASC` and `OItemCountDist_DESC`
-- of FOSketch/Enclave/OPrimitive.h, which end in a run of one of the sorters.
--
-- Oram: `class FOSketch` of FOSketch/Enclave/FOSketch.h. Oram/Block is a block with its 16-bit id,
-- its 16-bit leaf and its bytes; Oram/Sketch has the fields of the class; Oram/Stash has
-- `writeToStash` and its oblivious variants, Oram/Read `readFromStash`, Oram/Evict `rebuildStash` and
-- `OCompressStash`, which sorts by Sorter/Bitonic, Oram/Compact `compressStash`, which does not,
-- Oram/Tree `readPath` and `pushPath`, and Oram/Access puts them together as `access` and `OAccess` do. Oram/Query is
-- `OAccessFID`, the size of a flow, on top of that. Oram/Setup is `Init_OCU` and the constructors.
--
-- Delta: `ODelta` of FOSketch/Enclave/OPrimitive.h, the change of each flow between two item lists.
-- Sorter/Bytes: `OMoveEx` of the same file on bytes.
--
-- Light: the merge of heavy flows into the light part of the sketch: `OUpdateCUSketch`,
-- `OUpdateCUSketch_B` and `OUpdateCUSketch_BEx` of FOSketch/Enclave/FOSketch.h, and the plain
-- `UpdateCUSketch_NO` and `UpdateCUSketch_Scan` of FOSketch/Enclave/Enclave.cpp. Light/Pass is the
-- pass over sorted elements, for elements of any kind; Light/Gather, Ascending, Groups, Sorts and Once
-- have what a sort, the pass and a second sort do with each key, whatever the elements are.
-- Light/Update has the merge on single counters,
-- Light/Blocks the one on cache lines, with `OMaxSetMemCL`, and Light/Lines the one that `OPrepareData`
-- calls.
--
-- Table: the stash table of heavy flows that `Oram` is filled with, `OBuildSTable` of
-- FOSketch/Enclave/FOSketch.h and the plain `BuildSTable_NO` of FOSketch/Enclave/Enclave.cpp. Table/Filed
-- says what a table holds, Table/Places follows the loop, Table/Build the whole function, and Table/Finds
-- where a flow is found. The numbers of buckets, slots and places in the stash are arguments.
--
-- Epoch: the steps of `OPrepareData` of FOSketch/Enclave/FOSketch.h one by one. Epoch/Receive takes the two
-- sketches from a message, on top of Message; Epoch/Counters merges the light parts and counts their
-- values with `OAdd256` of FOSketch/Enclave/OPrimitive.h; Epoch/Hitters merges the heavy flows by
-- Sorter/OddEven and answers requests. Light and Table have the steps that follow.
--
-- Queue: the message queue of Common/Queue.c, whose messages stand in a memory of links. Queue/Refine
-- has sequences of calls, and the list with two ends that they implement. Spinlock: the spin lock of
-- Common/Spinlock.h as the steps of threads, each of which reads or writes the byte once. The
-- queue's methods run under that lock and are taken as one step each.
--
-- Message: the messages of Common/Message.c, on top of Cipher, the counter and the encryption of
-- Common/CommonUtil.c. OpenSSL's AES-GCM is the record `Evp`, and what is asked of it the record `IsGcm`:
-- the update calls keep the length and are inverse to each other, the final calls write nothing, and
-- a tag is accepted for the text that it was made from.
--
-- Tests: runs on concrete inputs.
--
-- A method takes the state that it changes and returns the new one. The random leaf that a method draws
-- is an argument. A buffer that starts uninitialised is an argument as well. The source turns `assert`
-- off, and so it is left out; what is printed is left out too.
--
-- Fuel: a recursive method of a sorter gets the length of its piece, which is at least the depth of
-- its recursion; `greatestPowerOfTwoLessThan` gets 33 rounds, after which a 32-bit pattern is 0; the
-- loop behind `testPo2` gets 64, one for each bit. The theorems say that these suffice for at most
-- 2^30 elements, where `int` does not overflow. All other loops run over the slots or levels there are.
--
-- Not modelled: timing and memory access patterns, SpookyHash (another project's library), the enclave's
-- entry points and the application, which call these parts, the detection of heavy changes, and the
-- estimate of the cardinality, which is computed in floating point.
pub mod Prelude
pub mod Sorter
pub mod Counts
pub mod Oram
pub mod Delta
pub mod Queue
pub mod Spinlock
pub mod Cipher
pub mod Message
pub mod Light
pub mod Table
pub mod Epoch
pub mod Tests
