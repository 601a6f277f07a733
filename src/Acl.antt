-- ===== src/Acl.antt =====
-- The programs under ACL/: rules of the access-control library of DPDK, `rte_acl`, over the fields of
-- a packet.
pub mod Field
pub mod Key
pub mod Forward
pub mod Capture
pub mod Rules
pub mod Agree
