-- ===== src/Tests.antt =====
-- Runs of the definitions at concrete inputs.
mod Parsing
pub mod Data
mod Collection
mod Storage
mod Messages
mod Mock
mod Registry
mod Program
