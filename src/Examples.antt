-- ===== src/Examples.antt =====
-- Concrete runs of the services of apps/api/kerislab: inputs at which the theorems are applied.
mod Sample
mod Credits
mod Scans
mod Access
mod Billing
mod Running
mod Requests
mod Logins
mod Migrations
mod Browsing
mod Preflight
