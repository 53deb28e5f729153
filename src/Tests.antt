-- ===== src/Tests.antt =====
-- Runs of the definitions, and the theorems at concrete data.
mod Paths
mod Debouncing
mod Observing
mod Limiting
mod Serving
mod Storing
mod Running
mod Signing
mod Creating
mod Writing
mod Answering
