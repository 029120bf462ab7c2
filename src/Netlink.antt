-- ===== src/Netlink.antt =====
-- netlink.c: the snapshot of the kernel's links, addresses and routes.
pub mod Attr
pub mod Messages
pub mod Dump
pub mod Unroll
pub mod Encode
pub mod Within
pub mod Limits
pub mod Returns
pub mod Address
pub mod Link
