-- ===== src/Tests.antt =====
-- Runs of the code at small inputs, and the theorems at inputs that meet their hypotheses.
mod Table
mod Array
mod Text
mod Handlers
mod Sessions
mod Threads
mod Clients
mod Exchanges
mod Servers
pub mod Numbers
