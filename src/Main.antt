-- ===== src/Main.antt =====
-- ututna/main.c: the benchmarks and the program that runs them.
pub mod State
pub mod Gemm
pub mod Kernels
pub mod Hash
pub mod Program
pub mod Clock
pub mod Ranges
pub mod Safety
pub mod Dispatch
pub mod HashScore
pub mod Memory
pub mod Grouping
pub mod Columns
pub mod Carried
pub mod Progress
pub mod Report
