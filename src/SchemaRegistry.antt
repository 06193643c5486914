-- ===== src/SchemaRegistry.antt =====
-- src/schema-registry: the contracts of the events, and whether one may follow another.
pub mod Node
pub mod Meaning
pub mod Compatibility
