-- ===== src/Yaml.antt =====
-- yaml.c: the desired states that a configuration tree holds.
pub mod Fields
pub mod Parts
pub mod Load
pub mod Keeps
pub mod Loaded
pub mod Sets
