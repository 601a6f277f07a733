-- ===== src/Napt.antt =====
-- nat_project/version6: NAT with port translation. A flow of a private host is given a port of the one
-- public address; replies are found by the reverse key, and an entry dies after 30 seconds of silence.
pub mod State
pub mod Process
pub mod Main
pub mod Ports
pub mod Memory
pub mod Flows
pub mod Drops
