-- ===== src/Reorder.antt =====
-- The programs under reordering/: packets get sequence numbers, and leave in their order.
pub mod DynamicSeqno
pub mod RxBurst
pub mod Ordered
