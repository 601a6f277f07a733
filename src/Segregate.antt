-- ===== src/Segregate.antt =====
-- control_data_segregation/main.c: packets are told apart by what they carry, and put into two rings.
pub mod Classify
pub mod Loop
