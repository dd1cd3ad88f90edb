-- ===== src/Examples.antt =====
-- Concrete inputs for the theorems, and runs of the definitions, one file for each part.
mod Gates
mod Scenarios
mod Submits
mod Agents
mod Leases
mod Logs
mod Buses
mod Runs
mod Tails
mod Feeds
mod Couriers
mod Commands
mod Sessions
mod Teardowns
