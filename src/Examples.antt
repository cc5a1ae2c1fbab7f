-- ===== src/Examples.antt =====
-- The theorems at concrete data, and runs of the definitions.
mod Machine
mod Data
mod Policies
mod Requests
mod Receipts
mod Payloads
mod Plans
mod Traces
mod Resources
mod Upgrades
mod Proxies
mod Servers
