-- ===== src/Registry.antt =====
-- kernel/registry.py and kernel/loaders.py: documents by layer, merged into the effective resources.
pub mod Layers
pub mod Merge
pub mod Documents
pub mod Loaders
pub mod Explain
