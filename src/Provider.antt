-- ===== src/Provider.antt =====
-- internal/provider: references to models and the catalog of a provider's models.
pub mod Refs
pub mod Catalog
mod Examples
