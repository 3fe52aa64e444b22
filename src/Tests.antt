-- ===== src/Tests.antt =====
-- Concrete runs of the code, and each theorem applied at a concrete input.
pub mod Environment
mod Buffers
mod Files
mod Reads
mod Tasks
mod Events
mod Signals
mod Maps
mod Conns
mod Servers
mod Options
mod Configs
mod Programs
mod Rpcs
mod Pools
mod Masters
