-- ===== src/Tests.antt =====
-- Runs of the definitions at fixed inputs, and the theorems applied at inputs that meet their
-- hypotheses.
mod Configs
mod Entries
mod Federations
mod Filters
mod Plans
mod Routers
mod Searches
mod Sources
mod Mappings
mod Hosts
mod Processes
mod Transports
