-- ===== src/NatPool.antt =====
-- nat_project/version5: outbound NAT from a pool of public addresses with idle timeouts, and static
-- inbound mappings.
pub mod State
pub mod Timers
pub mod Apply
pub mod Main
pub mod Sound
pub mod Translate
pub mod Outcome
pub mod Sticky
pub mod Expiry
pub mod Start
