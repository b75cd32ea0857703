-- ===== src/Quota.antt =====
-- The records of the quota servers (QuaServer/ServiceQua.h) and the operations on one of them.
pub mod Times
pub mod Slot
pub mod Peer
pub mod Record
