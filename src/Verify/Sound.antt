-- ===== src/Verify/Sound.antt =====
-- A check of one part returns 0 exactly if that part of the specification holds.
mod Lookups
pub mod Bridge
pub mod Links
pub mod Overlay
pub mod Scenario
pub use Lookups.{
  has_any_addr_iff, has_addr_iff, has_route_iff, has_master_iff, is_up_iff, rs_dns4_exists_iff,
}
