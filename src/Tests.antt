-- ===== src/Tests.antt =====
-- Runs of the models on concrete inputs, and each theorem with hypotheses at an input that meets them.
mod RateLimits
mod Caches
mod Sessions
mod Contexts
mod Departures
mod Streams
mod Fallbacks
mod Turns
mod Owners
mod Locks
mod Routes
mod Bodies
