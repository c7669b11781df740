-- ===== src/Tests.antt =====
-- The theorems at concrete inputs.
mod Libraries
mod Texts
mod Fixtures
mod Providers
mod Setups
mod Clients
mod Programs
mod Interleaved
mod Requests
mod Restarts
