-- ===== src/Tests.antt =====
-- The theorems at concrete inputs, and runs of the models.
mod Sample
mod VerifyTests
mod CfgTests
mod RunTests
mod YamlTests
mod NetlinkTests
mod MainTests
mod UciTests
mod ReloadTests
