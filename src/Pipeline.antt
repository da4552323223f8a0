-- ===== src/Pipeline.antt =====
-- internal/msgpipeline: the message pipeline. Checks, modifiers and targets are other modules of the
-- server, which the model takes as parameters.
pub mod Checks
pub mod Routing
pub mod Delivery
mod Tests
