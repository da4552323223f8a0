-- ===== src/Queue.antt =====
-- internal/target/queue: the delivery queue, its time wheel and its files.
pub mod Delivery
pub mod Attempt
pub mod Run
pub mod Disk
pub mod Scan
pub mod Session
pub mod Wheel
mod Tests
mod DiskTests
