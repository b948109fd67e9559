-- ===== src/Tests.antt =====
-- Concrete data, and the theorems of the library at concrete inputs.
mod Data
mod Routing
mod Parts
mod Limits
mod Bulkheads
mod Heap
mod Graphs
