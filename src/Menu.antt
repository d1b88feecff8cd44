-- ===== src/Menu.antt =====
-- The menu: the templates, the builder of descriptors and the catalog of capabilities.
pub mod Templates
pub mod Builder
pub mod Decode
pub mod Catalog
