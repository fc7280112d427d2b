-- ===== src/Methodology.antt =====
-- audit_agent/methodology: the reducer of service.py over the models.
pub mod Models
pub mod Roadmap
pub mod Grounding
pub mod Service
pub mod Parity
pub mod Analyzers
pub mod Adapters
