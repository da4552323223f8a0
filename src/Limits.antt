-- ===== src/Limits.antt =====
-- internal/limits: limits on the rate and the concurrency of messages.
--
-- Calls are modelled one after the other: while one runs, no other call of the same limiter acts. So a
-- wait for a semaphore ends with the context's end, and a wait for a rate limiter's token ends with
-- the context's end or with the next refill, as a Boolean of the caller's `select` says.
pub mod Limiter
pub mod Semaphore
pub mod Rate
pub mod Multi
pub mod Bucket
pub mod Group
mod Tests
