-- ===== src/Uci.antt =====
-- uci.c: the desired states that an OpenWrt configuration stands for.
pub mod Words
pub mod Db
pub mod Ports
pub mod Proto
pub mod Build
pub mod Dump
pub mod Load
pub mod Lookup
pub mod Tokens
pub mod Mask
pub mod Added
pub mod Id
pub mod Tree
pub mod Lines
pub mod Read
pub mod Stored
pub mod StoredDhcp
pub mod Vxlan
pub mod RoundTrip
pub mod Reload
pub mod Kept
pub mod Built
pub mod Filled
pub mod EndToEnd
