-- ===== src/Models.antt =====
-- apps/api/kerislab/models.py: the enumerations and dataclasses of the domain.
pub mod Payload
pub mod Status
pub mod Identity
pub mod Money
pub mod Scanning
pub mod Running
pub mod Values
