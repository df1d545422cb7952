-- ===== src/Scripts.antt =====
-- The scripts that run ROS nodes, benchmarks and bags, and those that compare a migrated program
-- with its source.
pub mod Lab
pub mod Fixture
pub mod Pairs
pub mod Capture
pub mod Bag
pub mod Talker
pub mod Dds
pub mod Timer
pub mod Reports
pub mod Comparison
pub mod Benchmark
