-- ===== src/Tests.antt =====
-- Runs of the definitions on concrete inputs, and the theorems at concrete inputs.
mod Ranges
mod Buckets
mod Flights
mod Verdicts
mod Feeds
mod Views
mod Runs
mod Agents
mod Pages
mod Services
mod Quotas
mod Lookups
mod Fetches
