-- ===== src/Tests.antt =====
-- Examples of the theorems at concrete inputs, over small stand-ins for the crates.
mod Crates
mod Group
mod Kdfs
mod Contexts
mod Nonces
mod Channels
mod Modes
mod Groups
mod PostQuantum
mod Schedules
mod Instances
mod Suites
mod AuthSuites
mod Units
mod Outcomes
