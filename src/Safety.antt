-- ===== src/Safety.antt =====
-- src/rosplus/safety.py: the simulated GPIO and the dead-man switch that drives it.
pub mod Gpio
pub mod Monitor
pub mod Watch
pub mod Threads
pub mod Restart
