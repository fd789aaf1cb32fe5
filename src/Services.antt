-- ===== src/Services.antt =====
-- apps/api/kerislab/services.py: the services, a module each.
pub mod Credits
pub mod Books
pub mod Scans
pub mod Autonomous
pub mod Engine
pub mod Billing
pub mod Audit
pub mod Authorization
pub mod Auth
pub mod Sessions
pub mod Workspaces
pub mod Lifecycle
pub mod Workers
pub mod Reports
pub mod Evidence
pub mod Browser
pub mod Bystanders
