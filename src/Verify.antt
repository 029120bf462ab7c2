-- ===== src/Verify.antt =====
-- verify.c: the checks of a desired state against a snapshot.
pub mod Calls
pub mod Address
pub mod Bridge
pub mod Links
pub mod Routes
pub mod Vxlan
pub mod Vlan
pub mod Scenario
pub mod Exec
pub mod Tally
pub mod Acts
pub mod Report
pub mod Effects
pub mod Spec
pub mod Documented
pub mod Sound
pub mod Idle
pub mod Words
