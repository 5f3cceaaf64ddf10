-- ===== src/Benchmark.antt =====
-- src/benchmarks.cc, a client of the abstract class.
pub mod Workload
pub mod Run
